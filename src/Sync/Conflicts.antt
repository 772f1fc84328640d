-- ===== src/Sync/Conflicts.antt =====
-- The conflicts of internal/service/data_sync.go: `recordConflict` and `conflictResult`.
use license_server_ai.Base.{
  String, Bool, true, false, ◌&&◌, Option, none, some, List, [], ◌∷◌, ◌++◌, find?, str_eq,
}
use license_server_ai.Base.Int.{ℤ}
use license_server_ai.Model.Sync.{SyncConflict, ConflictStatus, unresolved, resolved}
use license_server_ai.Sync.Table.{save_by, find_id}
use license_server_ai.Database.Core.{
  M, Tables, Result, ok, err, db_failure, pure, send, attempt, ◌>>=◌, ◌>>◌,
}
use license_server_ai.Database.Statements.{read}
use license_server_ai.Sync.Rows.{PushItem, Env, SyncResult, conflict, error_result, conflict_failed}

abbrev pub is_unresolved : ConflictStatus → Bool
is_unresolved unresolved = true
is_unresolved resolved = false

-- The pending conflict of a device about an item.
abbrev pub is_about : String → String → String → String → String → SyncConflict → Bool
is_about user app device kind key c =
    str_eq c.user_id user
    && str_eq c.app_id app
    && str_eq c.device_id device
    && str_eq c.data_type kind
    && str_eq c.data_key key
    && is_unresolved c.conflict_status

unfoldable pub find_pending :
    String → String → String → String → String → List SyncConflict → Option SyncConflict
find_pending user app device kind key cs = find? (is_about user app device kind key) cs

abbrev pub save_conflict_row : SyncConflict → List SyncConflict → List SyncConflict
save_conflict_row = save_by (λ c. c.id)

abbrev pub with_conflicts : (List SyncConflict → List SyncConflict) → Tables → Tables
with_conflicts f t = record t { sync = record t.sync { sync_conflicts = f t.sync.sync_conflicts } }

unfoldable pub save_conflict : SyncConflict → M (Unit {0})
save_conflict c = send (λ t. ok (tt, with_conflicts (save_conflict_row c) t))

abbrev pub insert_conflict :
    SyncConflict → Tables → Option SyncConflict → Result ((Unit {0}) × Tables)
insert_conflict c t (some _) = err db_failure
insert_conflict c t none = ok (tt, with_conflicts (λ cs. cs ++ c ∷ []) t)

-- A second row with the same primary key is refused.
unfoldable pub create_conflict : SyncConflict → M (Unit {0})
create_conflict c = send (λ t. insert_conflict c t (find_id (λ x. x.id) c.id t.sync.sync_conflicts))

abbrev pub renewed_conflict : PushItem → ℤ → String → SyncConflict → SyncConflict
renewed_conflict item v text c = record c {
  local_version = item.local_version;
  server_version = v;
  local_data = item.raw;
  server_data = text;
}

abbrev pub new_conflict : Env → PushItem → ℤ → String → SyncConflict
new_conflict e item v text = record {
  id = e.new_conflict_id;
  user_id = e.user;
  device_id = e.device;
  app_id = e.app;
  data_type = item.data_type;
  data_key = item.data_key;
  local_version = item.local_version;
  server_version = v;
  local_data = item.raw;
  server_data = text;
  resolution = "";
  resolved_data = "";
  resolved_at = none;
  conflict_status = unresolved;
}

unfoldable pub write_conflict : Env → PushItem → ℤ → String → Option SyncConflict → M String
write_conflict e item v text (some c) = do save_conflict (renewed_conflict item v text c); pure c.id
write_conflict e item v text none = do
  create_conflict (new_conflict e item v text)
  pure e.new_conflict_id

-- `recordConflict`.
unfoldable pub record_conflict : Env → PushItem → ℤ → String → M String
record_conflict e item v text = do
  found ←
      read
        (λ t. find_pending e.user e.app e.device item.data_type item.data_key t.sync.sync_conflicts)
  write_conflict e item v text found

unfoldable pub conflict_answer : PushItem → String → ℤ → Result String → SyncResult
conflict_answer item key v (err x) = record (error_result item conflict_failed) { result_key = key }
conflict_answer item key v (ok id) = record {
  result_key = key;
  push_status = conflict;
  server_version = v;
  conflict_id = id;
  push_error = none;
}

-- `conflictResult`, with the key that the caller puts into the answer.
unfoldable pub conflict_result : Env → PushItem → String → ℤ → String → M SyncResult
conflict_result e item key v text = do
  written ← attempt (record_conflict e item v text)
  pure (conflict_answer item key v written)
