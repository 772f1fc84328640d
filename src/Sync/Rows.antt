-- ===== src/Sync/Rows.antt =====
-- internal/service/data_sync.go: what a push sends and gets back, and the table of one kind of data
-- as the pushes read and write it. `Kind` has what one kind of data differs in.
use license_server_ai.Base.{
  ℕ, String, Bool, ◌&&◌, ◌||◌, Option, none, some, List, [], ◌∷◌, ◌++◌, find?, str_eq,
}
use license_server_ai.Base.Int.{ℤ, pos}
use license_server_ai.Model.Sync.{Row, SyncTables}
use license_server_ai.Sync.Table.{save_by}
use license_server_ai.Database.Core.{M, Tables, Result, ok, err, db_failure, send}

-- An item of a push. `data` is the raw text, "" if there is none.
pub record PushItem : Type 0 where
  pub data_type : String
  pub data_key : String
  pub action : String
  pub raw : String
  pub local_version : ℤ

-- Who pushes, the clock, and the identities that would be made for a new row and a new conflict.
pub record Env : Type 0 where
  pub user : String
  pub app : String
  pub device : String
  pub now : ℕ
  pub new_id : String
  pub new_conflict_id : String

pub data PushStatus : Type 0 where
  success conflict error : PushStatus

-- What the error of a result is about.
pub data PushError : Type 0 where
  unknown_type bad_data query_failed create_failed save_failed conflict_failed : PushError

-- The copy of the server's data in the answer to a conflict is left out; the conflict's row has it.
pub record SyncResult : Type 0 where
  pub result_key : String
  pub push_status : PushStatus
  pub server_version : ℤ
  pub conflict_id : String
  pub push_error : Option PushError

unfoldable pub error_result : PushItem → PushError → SyncResult
error_result item e = record {
  result_key = item.data_key;
  push_status = error;
  server_version = pos 0;
  conflict_id = "";
  push_error = some e;
}

abbrev pub success_result : String → ℤ → SyncResult
success_result key v = record {
  result_key = key;
  push_status = success;
  server_version = v;
  conflict_id = "";
  push_error = none;
}

abbrev pub is_delete : PushItem → Bool
is_delete item = str_eq item.action "delete"

module _ {P : Type 0} where
  abbrev pub owned_by : String → String → Row P → Bool
  owned_by user app x = str_eq x.user_id user && str_eq x.app_id app

-- One kind of data.
pub record Kind (P : Type 0) : Type 0 where
  pub rows : SyncTables → List (Row P)
  pub with_rows : List (Row P) → SyncTables → SyncTables
  -- The row that an item stands for, with its key filled in; `none` if the item cannot be decoded.
  pub decode : PushItem → Option (Row P)
  -- The condition of the query for the stored row, beside user and application.
  pub matches : PushItem → Row P → Row P → Bool
  -- `First` on the rows of that query: any one, where an index lets only one match, and else the one
  -- with the least id.
  pub first_of : (Row P → Bool) → List (Row P) → Option (Row P)
  -- The columns of the unique index, beside user and application; never if there is none.
  pub same_key : P → P → Bool
  -- The version that an item names is refused for a stored row of that version.
  pub refuses : PushItem → ℤ → Bool
  -- What an update makes of the stored row, from the decoded one.
  pub merge : P → P → P
  -- The defaults of the columns, which an INSERT puts in the place of zero values.
  pub defaults : P → P
  -- The key in the answer, from the item and the stored row.
  pub answer_key : PushItem → Row P → String
  -- The text of the stored row in a conflict.
  pub to_text : Row P → String

module _ {P : Type 0} (k : Kind P) where
  unfoldable pub find_row : PushItem → String → String → Row P → List (Row P) → Option (Row P)
  find_row item user app r xs = k.first_of (λ x. owned_by user app x && k.matches item r x) xs

  -- A second row with the primary key, or with the columns of the unique index.
  abbrev pub clashes : Row P → Row P → Bool
  clashes r x = str_eq x.id r.id || owned_by r.user_id r.app_id x && k.same_key r.body x.body

  abbrev pub insert_new : Row P → Tables → Option (Row P) → Result ((Unit {0}) × Tables)
  insert_new r t (some _) = err db_failure
  insert_new r t none = ok (tt, record t { sync = k.with_rows (k.rows t.sync ++ r ∷ []) t.sync })

  -- `Create`.
  unfoldable pub create_row : Row P → M (Unit {0})
  create_row r = send (λ t. insert_new r t (find? (clashes r) (k.rows t.sync)))

  abbrev pub with_saved : Row P → Tables → Tables
  with_saved r t = record t { sync = k.with_rows (save_by (λ x. x.id) r (k.rows t.sync)) t.sync }

  -- `Save`, on the primary key.
  unfoldable pub save_row : Row P → M (Unit {0})
  save_row r = send (λ t. ok (tt, with_saved r t))
