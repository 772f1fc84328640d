-- ===== src/Sync/Applied.antt =====
-- What `ResolveConflict`, internal/service/data_sync.go, makes of a conflict about a configuration.
use mathlib.Core.Path.{subst}
use license_server_ai.Base.{
  ◌≡◌, refl, String, Bool, true, false, none, some, [], ◌∷◌, ◌++◌, find?, str_eq, arith,
}
use license_server_ai.Base.Int.{pos, ◌+ℤ◌, wrap64, eqb_ℤ, eqb_ℤ_iff}
use license_server_ai.Model.Sync.{Row, UserConfig, SyncConflict, resolved}
use license_server_ai.Database.Core.{Db, Tables}
use license_server_ai.Database.Ends.{Ends, Ends-mono, Ends-never, Ends-bind}
use license_server_ai.License.Keeps.{write-Ends}
use license_server_ai.Sync.Rows.{Env, SyncResult, success, find_row, with_saved, error_result}
use license_server_ai.Sync.Conflicts.{save_conflict_row, save_conflict, with_conflicts}
use license_server_ai.Sync.Push.{new_row, next_row}
use license_server_ai.Sync.Kinds.{config_kind, config_row, push_single_item}
use license_server_ai.Sync.Kinds.Decoding.{Json}
use license_server_ai.Sync.Resolve.{
  Resolution, is_conflict, as_resolved, resolving_item, resolving_env, accept, apply_resolution,
  resolve_found, resolve_conflict,
}
use license_server_ai.Sync.Outcome.{
  Pushed, failed, nothing, inserted, replaced, conflicted, push-Pushed,
}
use license_server_ai.Sync.Dispatch.{push_single_item-Ends}
use license_server_ai.Sync.Versions.{config_at}
use license_server_ai.Sync.Accept.{Chosen, accept-Ends, resolving-Ends, resolve_conflict-Ends}

module _ (e : Env) (req : Resolution) (c : SyncConflict) where
  abbrev pub noted : String → Tables → Tables
  noted merged t =
      with_conflicts
        (save_conflict_row (record c {
          resolution = req.way;
          resolved_at = some e.now;
          conflict_status = resolved;
          resolved_data = merged;
        }))
        t

  abbrev pub entry_of : Row UserConfig → Bool
  entry_of = config_at c.user_id c.app_id c.data_key

  -- What a conflict comes to, from the tables before to those afterwards.
  pub data Applied (t : Tables) : Tables → Type 0 where
    -- The server's side stays, and the conflict is noted as resolved.
    left : str_eq req.way "use_server" ≡ true → Applied t (noted c.resolved_data t)
    -- The chosen data replace those of the entry, whose version is still that of the conflict and
    -- then the next one.
    overwritten :
        (raw merged : String) (x : Row UserConfig)
        → Chosen req c raw merged
        → find? entry_of t.sync.user_configs ≡ some x
        → x.version ≡ c.server_version
        → Applied t (
            noted merged (
              with_saved config_kind
                (record x {
                  body = record x.body { config_value = raw };
                  is_deleted = false;
                  version = wrap64 (x.version +ℤ pos 1);
                  updated_at = e.now;
                })
                t))
    -- The entry is gone, and is made again from the chosen data, with version 1.
    remade :
        (raw merged : String)
        → Chosen req c raw merged
        → find? entry_of t.sync.user_configs ≡ none
        → Applied t (
            noted merged (record t {
              sync = record t.sync {
                user_configs =
                    t.sync.user_configs
                    ++ record {
                      id = e.new_id;
                      created_at = e.now;
                      updated_at = e.now;
                      user_id = c.user_id;
                      app_id = c.app_id;
                      version = pos 1;
                      is_deleted = false;
                      body = record {
                        config_key = c.data_key;
                        config_value = raw;
                        is_encrypted = false;
                      };
                    }
                      ∷ [];
              };
            }))

  Pushed-Applied :
      (raw merged : String) (t u : Tables) (r : SyncResult)
      → Chosen req c raw merged
      → r.push_status ≡ success
      → Pushed config_kind (resolving_env e c) (resolving_item c raw) t r u
      → Applied t (noted merged u)
  unfolding find_row
  Pushed-Applied raw merged t u r chosen s (failed _ bad) = let never : ⊥ = cc in absurd never
  Pushed-Applied raw merged t u r chosen s (nothing row decoded absent deletes) =
      let never : ⊥ = (let h = deletes in ground arith) in absurd never
  Pushed-Applied raw merged t u r chosen s (inserted row decoded absent creates free made) =
      let same : config_row (resolving_item c raw) ≡ row = cc in
      subst
        (λ y. Applied t (
          noted merged (record t {
            sync = record t.sync {
              user_configs =
                  t.sync.user_configs
                  ++ new_row config_kind (resolving_env e c) (resolving_item c raw) y ∷ [];
            };
          })))
        same (remade raw merged chosen absent)
  Pushed-Applied raw merged t u r chosen s (replaced row x decoded found current next) =
      let same : config_row (resolving_item c raw) ≡ row = cc in
      let current' : eqb_ℤ x.version c.server_version ≡ true = ground arith in
      subst
        (λ y. Applied t (
          noted merged (
            with_saved config_kind
              (next_row config_kind (resolving_env e c) (resolving_item c raw) y x) t)))
        same (overwritten raw merged x chosen found ((eqb_ℤ_iff _ _).0 current'))
  Pushed-Applied raw merged t u r chosen s
        (conflicted row x answered decoded found refused st v i new) =
      let never : ⊥ = cc in absurd never

  abbrev pub AppliedTo : Tables → Unit {0} → Tables → Type 0
  AppliedTo before _ after = Applied before after

  module _ (json : Json) (about : str_eq c.data_type "config" ≡ true) where
    push-Succeeded :
        (raw merged : String) (d : Db)
        → Chosen req c raw merged
        → Ends
            (λ r t. r.push_status ≡ success → Applied d.tables (noted merged t))
            (λ _. ⊥)
            (push_single_item json (resolving_env e c) (resolving_item c raw) d)
    unfolding error_result
    push-Succeeded raw merged d chosen =
        push_single_item-Ends json (resolving_env e c) (resolving_item c raw) _ d
          (λ _.
            Ends-mono _ (λ r t pushed s. Pushed-Applied raw merged d.tables t r chosen s pushed)
              (push-Pushed _ _ _ d))
          (λ other. let never : ⊥ = cc in absurd never) (λ bad. let never : ⊥ = cc in absurd never)

    apply_resolution-Applied :
        (raw merged : String) (d : Db)
        → Chosen req c raw merged
        → Ends
            (AppliedTo d.tables)
            (λ _. Unit)
            (apply_resolution json e req c raw
              (record (as_resolved e.now req.way c) { resolved_data = merged })
              d)
    unfolding apply_resolution save_conflict
    apply_resolution-Applied raw merged d chosen =
        Ends-bind (λ r t. r.push_status ≡ success → Applied d.tables (noted merged t)) _ _ d
          (Ends-never (push-Succeeded raw merged d chosen))
          λ r d1 pushed.
            Ends-bind (λ _ t. (r.push_status ≡ success) × (d1.tables ≡ t)) (accept r) _ d1
              (accept-Ends r d1)
              λ _ d2 same.
                write-Ends (λ t. Applied d.tables t) (λ _. Unit) (noted merged) d2
                  (subst (λ t. Applied d.tables (noted merged t)) same.1 (pushed same.0)) tt

    pub resolve_found-Applied :
        (d : Db) → Ends (AppliedTo d.tables) (λ _. Unit) (resolve_found json e req c d)
    unfolding save_conflict
    resolve_found-Applied d =
        resolving-Ends json e req c d
          (λ _ server.
            write-Ends (λ t. Applied d.tables t) (λ _. Unit) (noted c.resolved_data) d (left server)
              tt)
          (λ _ raw merged chosen. apply_resolution-Applied raw merged d chosen)

-- To resolve a stored conflict about a configuration either does it all, or fails and changes no
-- table, whichever statements fail. If it does, the conflict is noted as resolved, and the server's
-- side stays; or the chosen data, the local or the merged ones, become the next version of the entry,
-- which still has the version of the conflict; or they make the entry again, if it is gone.
pub resolve_conflict-Applied :
    (json : Json) (e : Env) (req : Resolution) (d : Db) (c : SyncConflict)
    → find? (is_conflict e req.resolved_id) d.sync.sync_conflicts ≡ some c
    → str_eq c.data_type "config" ≡ true
    → Ends (AppliedTo e req c d.tables) (λ t. t ≡ d.tables) (resolve_conflict json e req d)
resolve_conflict-Applied json e req d c found about =
    resolve_conflict-Ends json e req d refl λ c' d' found' same.
      let one : c ≡ c' = cc in
      subst (λ y. Ends (AppliedTo e req c d.tables) (λ _. Unit) (resolve_found json e req y d')) one
        (subst (λ t. Ends (AppliedTo e req c t) (λ _. Unit) (resolve_found json e req c d')) same
          (resolve_found-Applied e req c json about d'))
