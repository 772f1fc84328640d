-- ===== src/Sync/Dispatch.antt =====
-- What holds of the push of a configuration and of the push of every other kind of data holds of
-- `pushSingleItem`, internal/service/data_sync.go.
use license_server_ai.Base.{◌≡◌, refl, true, false, List, str_eq}
use license_server_ai.Model.Sync.{Row, SyncTables}
use license_server_ai.Database.Core.{Db, Tables}
use license_server_ai.Database.Ends.{Ends, returns, Ends-if}
use license_server_ai.Sync.Rows.{PushItem, Env, SyncResult, Kind, error_result, unknown_type}
use license_server_ai.Sync.Push.{push}
use license_server_ai.Sync.Kinds.{config_kind, push_single_item}
use license_server_ai.Sync.Kinds.Decoding.{Json}

-- The table of the kind is neither that of the configurations nor that of the conflicts.
pub record IsOther {P : Type 0} (k : Kind P) : Type 0 where
  pub keeps_configs :
      (xs : List (Row P)) (ts : SyncTables) → (k.with_rows xs ts).user_configs ≡ ts.user_configs
  pub keeps_conflicts :
      (xs : List (Row P)) (ts : SyncTables) → (k.with_rows xs ts).sync_conflicts ≡ ts.sync_conflicts

module _ (json : Json) (e : Env) (item : PushItem) (Q : SyncResult → Tables → Type 0) (d : Db) where
  pub push_single_item-Ends :
      (str_eq item.data_type "config" ≡ true → Ends Q (λ _. ⊥) (push config_kind e item d))
      → (str_eq item.data_type "config" ≡ false
          → (P : Type 0) (k : Kind P) → IsOther k
          → Ends Q (λ _. ⊥) (push k e item d))
      → Q (error_result item unknown_type) d.tables
      → Ends Q (λ _. ⊥) (push_single_item json e item d)
  unfolding push_single_item
  push_single_item-Ends config others unknown =
      Ends-if (str_eq item.data_type "config") _ _ d config λ c.
        Ends-if (str_eq item.data_type "workflow") _ _ d
          (λ _.
            others c _ _ (record { keeps_configs = λ _ _. refl; keeps_conflicts = λ _ _. refl }))
          λ _.
            Ends-if (str_eq item.data_type "batch_task") _ _ d
              (λ _.
                others c _ _
                  (record { keeps_configs = λ _ _. refl; keeps_conflicts = λ _ _. refl }))
              λ _.
                Ends-if (str_eq item.data_type "material") _ _ d
                  (λ _.
                    others c _ _
                      (record { keeps_configs = λ _ _. refl; keeps_conflicts = λ _ _. refl }))
                  λ _.
                    Ends-if (str_eq item.data_type "post") _ _ d
                      (λ _.
                        others c _ _
                          (record { keeps_configs = λ _ _. refl; keeps_conflicts = λ _ _. refl }))
                      λ _.
                        Ends-if (str_eq item.data_type "comment") _ _ d
                          (λ _.
                            others c _ _ (record {
                              keeps_configs = λ _ _. refl;
                              keeps_conflicts = λ _ _. refl;
                            }))
                          λ _.
                            Ends-if (str_eq item.data_type "comment_script") _ _ d
                              (λ _. others c _ _ (record {
                                keeps_configs = λ _ _. refl;
                                keeps_conflicts = λ _ _. refl;
                              }))
                              λ _.
                                Ends-if (str_eq item.data_type "voice_config") _ _ d
                                  (λ _. others c _ _ (record {
                                    keeps_configs = λ _ _. refl;
                                    keeps_conflicts = λ _ _. refl;
                                  }))
                                  λ _. returns unknown
