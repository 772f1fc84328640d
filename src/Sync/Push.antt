-- ===== src/Sync/Push.antt =====
-- The way that every push of internal/service/data_sync.go goes: decode, look the stored row up,
-- create it, or refuse the version, or save the next version.
use license_server_ai.Base.{ℕ, String, true, false, Option, none, some, if◌then◌else◌, str_eq, ◌==◌}
use license_server_ai.Base.Int.{ℤ, pos, ◌+ℤ◌, wrap64}
use license_server_ai.Model.Sync.{Row}
use license_server_ai.Database.Core.{M, Result, ok, err, pure, attempt, ◌>>=◌}
use license_server_ai.Database.Statements.{read}
use license_server_ai.Sync.Rows.{
  PushItem, Env, SyncResult, Kind, error_result, success_result, is_delete, find_row, create_row,
  save_row, bad_data, query_failed, create_failed, save_failed,
}
use license_server_ai.Sync.Conflicts.{conflict_result}

abbrev or_new_id : Env → String → String
or_new_id e id = if str_eq id "" then e.new_id else id

abbrev or_now : Env → ℕ → ℕ
or_now e time = if time == 0 then e.now else time

module _ {P : Type 0} (k : Kind P) (e : Env) (item : PushItem) where
  -- The row that a CREATE stores: the decoded one, which the client chose, but for its owner and its
  -- version; gorm fills an empty id, zero times and the defaults of the columns in.
  abbrev pub new_row : Row P → Row P
  new_row r = record r {
    id = or_new_id e r.id;
    created_at = or_now e r.created_at;
    updated_at = or_now e r.updated_at;
    user_id = e.user;
    app_id = e.app;
    version = pos 1;
    body = k.defaults r.body;
  }

  -- `Version++` on an `int64`.
  abbrev pub next_version : Row P → ℤ
  next_version x = wrap64 (x.version +ℤ pos 1)

  abbrev pub next_row : Row P → Row P → Row P
  next_row r x =
      if is_delete item
      then record x { is_deleted = true; version = next_version x; updated_at = e.now }
      else record x {
        body = k.merge r.body x.body;
        is_deleted = false;
        version = next_version x;
        updated_at = e.now;
      }

  unfoldable pub created : Row P → Result (Unit {0}) → SyncResult
  created r (ok _) = success_result (k.answer_key item r) (pos 1)
  created r (err _) = error_result item create_failed

  unfoldable pub saved : Row P → Result (Unit {0}) → SyncResult
  saved x (ok _) = success_result (k.answer_key item x) (next_version x)
  saved x (err _) = error_result item save_failed

  unfoldable pub push_absent : Row P → M SyncResult
  push_absent r =
      if is_delete item
      then pure (success_result item.data_key (pos 0))
      else (do made ← attempt (create_row k (new_row r)); pure (created (new_row r) made))

  unfoldable pub push_stored : Row P → Row P → M SyncResult
  push_stored r x =
      if k.refuses item x.version
      then conflict_result e item (k.answer_key item x) x.version (k.to_text x)
      else (do written ← attempt (save_row k (next_row r x)); pure (saved x written))

  unfoldable pub push_found : Row P → Result (Option (Row P)) → M SyncResult
  push_found r (err _) = pure (error_result item query_failed)
  push_found r (ok none) = push_absent r
  push_found r (ok (some x)) = push_stored r x

  unfoldable pub push_decoded : Option (Row P) → M SyncResult
  push_decoded none = pure (error_result item bad_data)
  push_decoded (some r) = do
    found ← attempt (read (λ t. find_row k item e.user e.app r (k.rows t.sync)))
    push_found r found

  unfoldable pub push : M SyncResult
  push = push_decoded (k.decode item)
