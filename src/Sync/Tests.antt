-- ===== src/Sync/Tests.antt =====
-- The synchronisation on concrete tables.
use license_server_ai.Base.{
  ℕ, ◌+◌, ◌*◌, ◌^◌, ◌≡◌, refl, String, Bool, false, not, none, some, List, [], ◌∷◌, length, map,
  arith,
}
use license_server_ai.Base.Int.{pos, negsuc}
use license_server_ai.Model.Sync.{Row, UserConfig, SyncConflict, no_sync_tables, unresolved}
use license_server_ai.Database.Core.{Db, Tables, Result, ok, ◌>>=◌, recover, send, answer}
use license_server_ai.Database.Statements.{read}
use license_server_ai.Database.Ends.{Ends}
use license_server_ai.Pricing.Text.{atoi}
use license_server_ai.Sync.Table.{find_id}
use license_server_ai.Sync.Rows.{PushItem, Env}
use license_server_ai.Sync.Push.{push}
use license_server_ai.Sync.Kinds.{config_kind, push_changes}
use license_server_ai.Sync.Kinds.Decoding.{Json, parse_int64}
use license_server_ai.Sync.Resolve.{Resolution, resolve_conflict}
use license_server_ai.Sync.Outcome.{Answers, push-Pushed}
use license_server_ai.Sync.Acknowledged.{Counted, push_changes-Counted}
use license_server_ai.Sync.Pending.{IsTidy}
use license_server_ai.Sync.Trace.{push_call, resolve_call, run, run-IsTidy}
use license_server_ai.Sync.Applied.{AppliedTo, resolve_conflict-Applied}
use license_server_ai.Sync.Texts.{str_lt, format_int}
use license_server_ai.Sync.Changes.{
  SyncItem, SyncChangesPage, changes_of, changes_in, sort_by, get_changes_page, fetch, fetch_all,
  page_of,
}
use license_server_ai.Sync.Checkpoints.{update_checkpoint}
use license_server_ai.Sync.Resume.{Moved, update_checkpoint-Moved}
use license_server_ai.Sync.Paging.{follow, follow-changes}

abbrev json : Json
json = record {
  decode_workflow = λ _. none;
  decode_batch_task = λ _. none;
  decode_material = λ _. none;
  decode_post = λ _. none;
  decode_comment = λ _. none;
  decode_comment_script = λ _. none;
  decode_voice_config = λ _. none;
  encode_workflow = λ _. "";
  encode_batch_task = λ _. "";
  encode_material = λ _. "";
  encode_post = λ _. "";
  encode_comment = λ _. "";
  encode_comment_script = λ _. "";
  encode_voice_config = λ _. "";
}

-- An entry that changed some milliseconds after the second 1000.
abbrev entry : String → ℕ → Row UserConfig
entry key ms = record {
  id = key;
  created_at = 0;
  updated_at = 1000 * 10 ^ 9 + ms * 10 ^ 6;
  user_id = "carl";
  app_id = "app";
  version = pos 3;
  is_deleted = false;
  body = record { config_key = key; config_value = "old"; is_encrypted = false };
}

abbrev pending : SyncConflict
pending = record {
  id = "c1";
  user_id = "carl";
  device_id = "phone";
  app_id = "app";
  data_type = "config";
  data_key = "a";
  local_version = pos 2;
  server_version = pos 3;
  local_data = "mine";
  server_data = "old";
  resolution = "";
  resolved_data = "";
  resolved_at = none;
  conflict_status = unresolved;
}

abbrev db : Db
db = record {
  tables = record {
    user_credits = [];
    credit_transactions = [];
    generation_tasks = [];
    team_members = [];
    customers = [];
    licenses = [];
    license_events = [];
    devices = [];
    provider_credentials = [];
    sync = record no_sync_tables {
      user_configs = entry "c" 100 ∷ entry "b" 200 ∷ entry "a" 300 ∷ [];
      sync_conflicts = pending ∷ [];
    };
  };
  faults = λ n. false;
  calls = 0;
}

abbrev phone : Env
phone = record {
  user = "carl";
  app = "app";
  device = "phone";
  now = 5;
  new_id = "n1";
  new_conflict_id = "c2";
}

abbrev item : ℕ → PushItem
item v = record {
  data_type = "config";
  data_key = "a";
  action = "update";
  raw = "new";
  local_version = pos v;
}

push-Pushed_example :
    Answers config_kind phone (item 3) db.tables (push config_kind phone (item 3) db)
push-Pushed_example = push-Pushed config_kind phone (item 3) db

-- The second push is based on a version that the first one has replaced.
push_changes-Counted_example :
    Ends
      (Counted "carl" "app" "a" ((phone, item 3) ∷ (phone, item 3) ∷ []) 3)
      (λ _. ⊥)
      (push_changes json ((phone, item 3) ∷ (phone, item 3) ∷ []) db)
unfolding find_id
push_changes-Counted_example =
    push_changes-Counted "carl" "app" "a" json ((phone, item 3) ∷ (phone, item 3) ∷ []) db 3
      (refl, (refl, (refl, tt))) refl (omega arith)

abbrev local : Resolution
local = record { resolved_id = "c1"; way = "use_local"; merged_data = "" }

run-IsTidy_example :
    IsTidy "carl" "app" "phone" "config" "a"
      (run json (push_call phone (item 1) ∷ resolve_call phone local ∷ []) db).sync.sync_conflicts
unfolding find_id
run-IsTidy_example =
    run-IsTidy json "carl" "app" "phone" "config" "a"
      (push_call phone (item 1) ∷ resolve_call phone local ∷ []) db ((refl, tt), omega arith)

resolve_conflict-Applied_example :
    Ends
      (AppliedTo phone local pending db.tables)
      (λ t. t ≡ db.tables)
      (resolve_conflict json phone local db)
resolve_conflict-Applied_example = resolve_conflict-Applied json phone local db pending refl refl

abbrev collates : String → String → Bool
collates a b = not (str_lt b a)

abbrev all_changes : Tables → List SyncItem
all_changes t =
    changes_in "config" (λ x. x.body.config_key)
      (λ x y. collates x.body.config_key y.body.config_key) "carl" "app" 0 t.sync.user_configs

follow-changes_example :
    (follow collates "carl" "app" 0 "config" (pos 2) (length (all_changes db.tables) + 1) 0 db).0
    ≡ ok (all_changes db.tables)
unfolding str_lt changes_of
follow-changes_example =
    follow-changes collates "carl" "app" 0 "config" (pos 2) db all_changes (λ n. refl) refl refl

abbrev keys : Result SyncChangesPage × Db → List String
keys (ok p, d) = map (λ x. x.data_key) p.items
keys (_, d) = []

-- Three entries of one second, pulled over all kinds with a limit of 1: "b" comes twice, "a" never.
pages_over_all_kinds :
    (keys (get_changes_page collates "carl" "app" 0 "" (pos 1) (pos 0) db) ≡ "b" ∷ [])
    × (keys (get_changes_page collates "carl" "app" 0 "" (pos 1) (pos 1) db) ≡ "b" ∷ [])
    × (keys (get_changes_page collates "carl" "app" 0 "" (pos 1) (pos 2) db) ≡ "c" ∷ [])
unfolding get_changes_page fetch fetch_all changes_of changes_in sort_by page_of str_lt ◌>>=◌
    recover read send answer
pages_over_all_kinds = (refl, refl, refl)

numbers :
    (format_int (negsuc 119) ≡ "-120")
    × (parse_int64 "-120" ≡ some (negsuc 119))
    × (parse_int64 "1a" ≡ none)
unfolding format_int parse_int64 atoi
numbers = (refl, refl, refl)

update_checkpoint-Moved_example :
    Ends
      (λ _. Moved "carl" "phone" "app" "config" 7 (pos 4) db.sync.sync_checkpoints)
      (λ t. t ≡ db.tables)
      (update_checkpoint "carl" "phone" "app" "config" 7 (pos 4) db)
update_checkpoint-Moved_example = update_checkpoint-Moved "carl" "phone" "app" "config" 7 (pos 4) db
