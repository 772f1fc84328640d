-- ===== src/Sync/Checkpoints.antt =====
-- `UpdateCheckpoint` and `GetCheckpoint` of internal/service/data_sync.go. The unique index of the
-- table has just the columns of the lookup, by which a checkpoint is saved here.
use license_server_ai.Base.{
  ℕ, String, Bool, ◌&&◌, Option, none, some, List, [], ◌∷◌, ◌++◌, find?, if◌then◌else◌, str_eq,
}
use license_server_ai.Base.Int.{ℤ}
use license_server_ai.Model.Sync.{SyncCheckpoint}
use license_server_ai.Database.Core.{M, Tables, ok, send, ◌>>=◌}
use license_server_ai.Database.Statements.{first, read}

abbrev pub is_checkpoint : String → String → String → String → SyncCheckpoint → Bool
is_checkpoint user device app kind c =
    str_eq c.user_id user
    && str_eq c.device_id device
    && str_eq c.app_id app
    && str_eq c.data_type kind

-- `Save` of a checkpoint that was found.
unfoldable pub replace_checkpoint : SyncCheckpoint → List SyncCheckpoint → List SyncCheckpoint
replace_checkpoint c [] = c ∷ []
replace_checkpoint c (x ∷ xs) =
    if is_checkpoint c.user_id c.device_id c.app_id c.data_type x
    then c ∷ xs
    else x ∷ replace_checkpoint c xs

abbrev pub with_checkpoints : (List SyncCheckpoint → List SyncCheckpoint) → Tables → Tables
with_checkpoints f t = record t {
  sync = record t.sync { sync_checkpoints = f t.sync.sync_checkpoints };
}

abbrev pub new_checkpoint : String → String → String → String → ℕ → ℤ → SyncCheckpoint
new_checkpoint user device app kind time version = record {
  user_id = user;
  device_id = device;
  app_id = app;
  data_type = kind;
  last_sync_at = time;
  last_version = version;
}

unfoldable pub put_checkpoint : SyncCheckpoint → Option SyncCheckpoint → M (Unit {0})
put_checkpoint c none = send (λ t. ok (tt, with_checkpoints (λ cs. cs ++ c ∷ []) t))
put_checkpoint c (some old) = send (λ t. ok (
  tt,
  with_checkpoints
      (replace_checkpoint
        (record old { last_sync_at = c.last_sync_at; last_version = c.last_version }))
      t,
))

unfoldable pub update_checkpoint : String → String → String → String → ℕ → ℤ → M (Unit {0})
update_checkpoint user device app kind time version = do
  found ← read (λ t. find? (is_checkpoint user device app kind) t.sync.sync_checkpoints)
  put_checkpoint (new_checkpoint user device app kind time version) found

unfoldable pub get_checkpoint : String → String → String → String → M SyncCheckpoint
get_checkpoint user device app kind =
    send (λ t. first t (find? (is_checkpoint user device app kind) t.sync.sync_checkpoints))
