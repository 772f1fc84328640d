-- ===== src/Sync/Accept.antt =====
-- What `ResolveConflict` of internal/service/data_sync.go goes on with after its push.
use license_server_ai.Base.{
  ◌≡◌, refl, ◌⊎◌, inl, inr, String, true, false, Option, none, some, find?, str_eq,
}
use license_server_ai.Database.Core.{Db, Tables, tick, no_conflict}
use license_server_ai.Database.Ends.{Ends, returns, raises, Ends-if, Ends-bind, transaction-Ends}
use license_server_ai.Model.Sync.{SyncConflict}
use license_server_ai.License.Keeps.{failing_as-Ends, read-Ends}
use license_server_ai.Sync.Conflicts.{is_unresolved, save_conflict}
use license_server_ai.Sync.Kinds.Decoding.{Json}
use license_server_ai.Sync.Rows.{Env, SyncResult, PushStatus, success, conflict, error, PushError}
use license_server_ai.Sync.Resolve.{
  accept, accept_status, accept_error, Resolution, is_conflict, as_resolved, apply_resolution,
  resolve_found, resolve_body, resolve_conflict,
}

accept_error-Ends :
    {Q : Unit {0} → Tables → Type 0} (o : Option PushError) (id : String) (d : Db)
    → Ends Q (λ _. Unit) (accept_error o id d)
unfolding accept_error
accept_error-Ends (some x) id d = raises tt
accept_error-Ends none id d = Ends-if (str_eq id "") _ _ d (λ _. raises tt) (λ _. raises tt)

accept_status-Ends :
    (s : PushStatus) (r : SyncResult) (d : Db)
    → Ends (λ _ t. (s ≡ success) × (d.tables ≡ t)) (λ _. Unit) (accept_status s r d)
unfolding accept_status
accept_status-Ends success r d = returns (refl, refl)
accept_status-Ends conflict r d = accept_error-Ends r.push_error r.conflict_id d
accept_status-Ends error r d = accept_error-Ends r.push_error r.conflict_id d

-- It goes on after a success only.
pub accept-Ends :
    (r : SyncResult) (d : Db)
    → Ends (λ _ t. (r.push_status ≡ success) × (d.tables ≡ t)) (λ _. Unit) (accept r d)
accept-Ends r d = accept_status-Ends r.push_status r d

-- The data that a way of resolving takes, and what is noted of them.
abbrev pub Chosen : Resolution → SyncConflict → String → String → Type 0
Chosen req c raw merged =
    ((str_eq req.way "use_local" ≡ true) × (raw ≡ c.local_data) × (merged ≡ c.resolved_data))
    ⊎ ((str_eq req.way "merge" ≡ true)
        × (raw ≡ req.merged_data)
        × (merged ≡ req.merged_data)
        × (str_eq raw "" ≡ false))

module _ {Q : Unit {0} → Tables → Type 0} (json : Json) (e : Env) (req : Resolution) where
  -- The branches of a resolution: to leave the stored row, or to push data over it.
  pub resolving-Ends :
      (c : SyncConflict) (d : Db)
      → (is_unresolved c.conflict_status ≡ true
          → str_eq req.way "use_server" ≡ true
          → Ends Q (λ _. Unit) (save_conflict (as_resolved e.now req.way c) d))
      → (is_unresolved c.conflict_status ≡ true
          → (raw merged : String) → Chosen req c raw merged
          → Ends Q
              (λ _. Unit)
              (apply_resolution json e req c raw
                (record (as_resolved e.now req.way c) { resolved_data = merged })
                d))
      → Ends Q (λ _. Unit) (resolve_found json e req c d)
  unfolding resolve_found
  resolving-Ends c d leave push_over =
      Ends-if (is_unresolved c.conflict_status) _ _ d
        (λ waits.
          Ends-if (str_eq req.way "use_local") _ _ d
            (λ w. push_over waits c.local_data c.resolved_data (inl (w, refl, refl)))
            λ _. Ends-if (str_eq req.way "use_server") _ _ d (leave waits) λ _.
              Ends-if (str_eq req.way "merge") _ _ d
                (λ w.
                  Ends-if (str_eq req.merged_data "") _ _ d (λ _. raises tt)
                    λ given.
                      push_over waits req.merged_data req.merged_data (inr (w, refl, refl, given)))
                (λ _. raises tt))
        (λ _. raises tt)

  -- The call is that of a stored conflict, or it fails.
  pub resolve_conflict-Ends :
      {E : Tables → Type 0} (d : Db)
      → E d.tables
      → ((c : SyncConflict) (d' : Db)
          → find? (is_conflict e req.resolved_id) d.sync.sync_conflicts ≡ some c
          → d'.tables ≡ d.tables
          → Ends Q (λ _. Unit) (resolve_found json e req c d'))
      → Ends Q E (resolve_conflict json e req d)
  unfolding resolve_conflict resolve_body
  resolve_conflict-Ends d h each = transaction-Ends _ d h (
      Ends-bind
        (λ c t.
          (find? (is_conflict e req.resolved_id) d.sync.sync_conflicts ≡ some c) × (t ≡ d.tables))
        _ _ (tick d)
        (failing_as-Ends _ (λ _. Unit) no_conflict _ (tick d)
          (read-Ends _ (λ _. Unit)
            (λ t. find? (is_conflict e req.resolved_id) t.sync.sync_conflicts) (tick d)
            (λ c found. (found, refl)) tt))
        λ c d' have. each c d' have.0 have.1)
