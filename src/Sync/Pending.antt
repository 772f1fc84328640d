-- ===== src/Sync/Pending.antt =====
-- At most one conflict is pending for a device and an entry, whatever is pushed and resolved through
-- internal/service/data_sync.go.
use mathlib.Core.Path.{subst}
use license_server_ai.Base.{
  ℕ, ◌≤◌, ◌≡◌, refl, sym, String, false, Option, none, some, List, [], ◌∷◌, ◌++◌, count_if,
  count_if-append, eq_iff, arith,
}
use license_server_ai.Base.Int.{ℤ}
use license_server_ai.Model.Sync.{Row, SyncConflict, SyncTables}
use license_server_ai.Database.Core.{Db, Tables}
use license_server_ai.Database.Ends.{Ends, Ends-mono, Ends-never, Ends-bind}
use license_server_ai.License.Keeps.{write-Ends}
use license_server_ai.Sync.Table.{UniqueIds}
use license_server_ai.Sync.Rows.{PushItem, Env, SyncResult, Kind, success}
use license_server_ai.Sync.Conflicts.{
  is_about, find_pending, save_conflict_row, save_conflict, renewed_conflict, new_conflict,
  with_conflicts,
}
use license_server_ai.Sync.Kinds.{config_kind, push_single_item}
use license_server_ai.Sync.Kinds.Decoding.{Json}
use license_server_ai.Sync.Resolve.{
  Resolution, as_resolved, resolving_item, resolving_env, accept, apply_resolution, resolve_found,
  resolve_conflict,
}
use license_server_ai.Sync.Outcome.{
  Pushed, failed, nothing, inserted, replaced, conflicted, push-Pushed,
}
use license_server_ai.Sync.Refusal.{put_conflict, pending_for, Fresh}
use license_server_ai.Sync.Accept.{accept-Ends, resolving-Ends, resolve_conflict-Ends}
use license_server_ai.Sync.Dispatch.{push_single_item-Ends}
use license_server_ai.Sync.Unique.{
  count_if-save_by, count_if-save_by_le, count_if_zero, save_by-UniqueIds, append-UniqueIds,
}

module _ (user app device kind key : String) where
  abbrev pub count_pending : List SyncConflict → ℕ
  count_pending cs = count_if (is_about user app device kind key) cs

  -- Conflicts have distinct ids, and at most one is pending about the entry.
  abbrev pub IsTidy : List SyncConflict → Type 0
  IsTidy cs = UniqueIds (λ c. c.id) cs × (count_pending cs ≤ 1)

  new_conflict-count :
      (e : Env) (item : PushItem) (v : ℤ) (text : String) (cs : List SyncConflict)
      → find_pending e.user e.app e.device item.data_type item.data_key cs ≡ none
      → count_pending cs ≤ 1
      → count_pending (cs ++ new_conflict e item v text ∷ []) ≤ 1
  unfolding find_pending
  new_conflict-count e item v text cs absent h = ground (
    arith,
    count_if-append (is_about user app device kind key) cs (new_conflict e item v text ∷ []),
    count_if_zero (λ c. c.id) (is_about e.user e.app e.device item.data_type item.data_key) cs
        absent,
    eq_iff e.user user,
    eq_iff e.app app,
    eq_iff e.device device,
    eq_iff item.data_type kind,
    eq_iff item.data_key key,
  )

  put_conflict-IsTidy :
      (e : Env) (item : PushItem) (v : ℤ) (text : String) (t : Tables) (o : Option SyncConflict)
      → pending_for e item t ≡ o
      → Fresh e t o
      → IsTidy t.sync.sync_conflicts
      → IsTidy (put_conflict e item v text o t).sync.sync_conflicts
  unfolding find_pending
  put_conflict-IsTidy e item v text t none absent new h = (
    append-UniqueIds (λ c. c.id) (new_conflict e item v text) _ new h.0,
    new_conflict-count e item v text t.sync.sync_conflicts absent h.1,
  )
  put_conflict-IsTidy e item v text t (some c) found new h = (
    save_by-UniqueIds (λ c. c.id) (renewed_conflict item v text c) _ h.0,
    rw
        (count_if-save_by (λ c. c.id) (is_about e.user e.app e.device item.data_type item.data_key)
          (is_about user app device kind key) c (renewed_conflict item v text c)
          t.sync.sync_conflicts h.0 found refl refl)
        h.1,
  )

  Pushed-IsTidy :
      {P : Type 0} (k : Kind P) (e : Env) (item : PushItem)
      → ((xs : List (Row P)) (ts : SyncTables)
          → (k.with_rows xs ts).sync_conflicts ≡ ts.sync_conflicts)
      → (t u : Tables) (r : SyncResult) → IsTidy t.sync.sync_conflicts
      → Pushed k e item t r u
      → IsTidy u.sync.sync_conflicts
  Pushed-IsTidy k e item keeps t u r h (failed _ bad) = h
  Pushed-IsTidy k e item keeps t u r h (nothing row decoded absent deletes) = h
  Pushed-IsTidy k e item keeps t u r h (inserted row decoded absent creates free made) =
      subst IsTidy (sym (keeps _ t.sync)) h
  Pushed-IsTidy k e item keeps t u r h (replaced row x decoded found current next) =
      subst IsTidy (sym (keeps _ t.sync)) h
  Pushed-IsTidy k e item keeps t u r h (conflicted row x answered decoded found refused s v i new) =
      put_conflict-IsTidy e item x.version (k.to_text x) t (pending_for e item t) refl new h

  abbrev Tidy : Tables → Type 0
  Tidy t = IsTidy t.sync.sync_conflicts

  pub push_single_item-Tidy :
      (json : Json) (e : Env) (item : PushItem) (d : Db)
      → Tidy d.tables
      → Ends (λ _. Tidy) (λ _. ⊥) (push_single_item json e item d)
  push_single_item-Tidy json e item d h =
      push_single_item-Ends json e item (λ _. Tidy) d
        (λ _.
          Ends-mono _ (λ r t. Pushed-IsTidy config_kind e item (λ _ _. refl) d.tables t r h)
            (push-Pushed config_kind e item d))
        (λ _ P k other.
          Ends-mono _ (λ r t. Pushed-IsTidy k e item other.keeps_conflicts d.tables t r h)
            (push-Pushed k e item d))
        h

  -- A resolved conflict is not pending.
  as_resolved-Tidy :
      (now : ℕ) (way : String) (c : SyncConflict) (merged : String) (t : Tables)
      → Tidy t
      → Tidy (
          with_conflicts
            (save_conflict_row (record (as_resolved now way c) { resolved_data = merged }))
            t)
  as_resolved-Tidy now way c merged t h =
      let after : SyncConflict = record (as_resolved now way c) { resolved_data = merged } in
      let gone : is_about user app device kind key after ≡ false = ground arith in
      (
        save_by-UniqueIds (λ x. x.id) after _ h.0,
        omega (
          arith,
          h.1,
          count_if-save_by_le (λ x. x.id) (is_about user app device kind key) after
              t.sync.sync_conflicts gone,
        ),
      )

  save_resolved-Tidy :
      (now : ℕ) (way : String) (c : SyncConflict) (merged : String) (d : Db)
      → Tidy d.tables
      → Ends
          (λ _. Tidy)
          (λ _. Unit)
          (save_conflict (record (as_resolved now way c) { resolved_data = merged }) d)
  unfolding save_conflict
  save_resolved-Tidy now way c merged d h =
      write-Ends Tidy (λ _. Unit)
        (with_conflicts
          (save_conflict_row (record (as_resolved now way c) { resolved_data = merged })))
        d (as_resolved-Tidy now way c merged d.tables h) tt

  module _ (json : Json) (e : Env) (req : Resolution) where
    apply_resolution-Tidy :
        (c : SyncConflict) (raw merged : String) (d : Db)
        → Tidy d.tables
        → Ends
            (λ _. Tidy)
            (λ _. Unit)
            (apply_resolution json e req c raw
              (record (as_resolved e.now req.way c) { resolved_data = merged })
              d)
    unfolding apply_resolution
    apply_resolution-Tidy c raw merged d h =
        Ends-bind (λ _. Tidy) _ _ d
          (Ends-never (push_single_item-Tidy json (resolving_env e c) (resolving_item c raw) d h))
          λ r d1 h1.
            Ends-bind (λ _ t. (r.push_status ≡ success) × (d1.tables ≡ t)) (accept r) _ d1
              (accept-Ends r d1)
              λ _ d2 same. save_resolved-Tidy e.now req.way c merged d2 (subst Tidy same.1 h1)

    resolve_found-Tidy :
        (c : SyncConflict) (d : Db)
        → Tidy d.tables
        → Ends (λ _. Tidy) (λ _. Unit) (resolve_found json e req c d)
    unfolding resolve_found
    resolve_found-Tidy c d h =
        resolving-Ends json e req c d
          (λ _ _. save_resolved-Tidy e.now req.way c c.resolved_data d h)
          (λ _ raw merged _. apply_resolution-Tidy c raw merged d h)

    pub resolve_conflict-Tidy :
        (d : Db) → Tidy d.tables → Ends (λ _. Tidy) Tidy (resolve_conflict json e req d)
    resolve_conflict-Tidy d h =
        resolve_conflict-Ends json e req d h
          λ c d' found same. resolve_found-Tidy c d' (subst Tidy (sym same) h)
