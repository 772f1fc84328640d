-- ===== src/Async/Tests.antt =====
-- The runner of generation tasks on concrete tables.
use license_server_ai.Base.{
  ◌+◌, ◌*◌, ◌≡◌, refl, true, false, Option, none, some, [], ◌∷◌, str_eq, arith,
}
use license_server_ai.Base.Int.{ℤ, pos, wrap64, ◌+ℤ◌, ◌-ℤ◌, neg_ℤ}
use license_server_ai.Model.Credit.{UserCredit, CreditTransaction, adjust}
use license_server_ai.Model.Credential.{ProviderCredential, unknown}
use license_server_ai.Model.Generation.{
  GenerationTask, GenerationStatus, running, succeeded, failed, none_yet,
}
use license_server_ai.Model.Sync.{no_sync_tables}
use license_server_ai.Database.Core.{Db, ◌>>=◌, send, transaction, attempt, recover}
use license_server_ai.Database.Statements.{
  read, look_credit, first_credit, save_credit, create_transaction, create_task, count_user_tasks,
  count_of_task, first_transaction, first_task, updates_task,
}
use license_server_ai.Credit.Tasks.{reserve_and_create_task}
use license_server_ai.Credit.Refunds.{fail_task_and_refund}
use license_server_ai.Database.Tables.{
  find_credit, find_task, find_transaction, count_transactions, sum_of, count_tasks, update_task,
  save_row,
}
use license_server_ai.Database.Ends.{Ends}
use license_server_ai.Credit.Accounts.{new_credit}
use license_server_ai.Credit.Ledger.{Integrity}
use license_server_ai.Credit.RefundOnce.{RefundedOnce}
use license_server_ai.Async.Upstream.{
  Outside, Files, StartInput, http, answered, refused, answer, succeeded as done,
}
use license_server_ai.Async.Failure.{second}
use license_server_ai.Async.Saving.{finalize_succeeded}
use license_server_ai.Async.Start.{start_task}
use license_server_ai.Async.Poll.{poll_once, due_tasks}
use license_server_ai.Async.Trace.{start, poll, run, run-Sound}
use license_server_ai.Async.Conclusion.{Paid, Unpaid}
use license_server_ai.Async.PaidBack.{start_task-Paid}
use license_server_ai.Async.Saved.{Saved, finalize_succeeded-Saved}
use license_server_ai.Async.Due.{IsBatch, due_tasks-IsBatch}

abbrev key : ProviderCredential
key = record {
  id = "k1";
  tenant_id = "acme";
  provider = "veo";
  mode = "google";
  enabled = true;
  priority = pos 0;
  health_status = unknown;
  last_used_at = none;
}

abbrev paid_in : CreditTransaction
paid_in = record {
  user_id = "ann";
  amount = pos 25;
  typ = adjust;
  task_id = "";
  rule_id = pos 0;
  balance_after = pos 25;
  operator_id = "root";
  note = "top up";
}

abbrev db : Db
db = record {
  tables = record {
    user_credits = record (new_credit "ann") { balance = pos 25; total_topup = pos 25 } ∷ [];
    credit_transactions = paid_in ∷ [];
    generation_tasks = [];
    team_members = [];
    customers = [];
    licenses = [];
    license_events = [];
    devices = [];
    sync = no_sync_tables;
    provider_credentials = key ∷ record key { id = "k2" } ∷ [];
  };
  faults = λ n. false;
  calls = 0;
}

-- The first file of the task is there.
abbrev files : Files
files = record { list_for_task = λ n id. some ("f0" ∷ []); save_result = λ n id i m. some "f1" }

-- The second key gets a task; the task then has two media.
abbrev outside : Outside
outside = record {
  clock = λ n. 100;
  fresh_id = λ n. "t1";
  has_adapter = λ p. true;
  decrypts = λ c. true;
  create = λ n try c body. elim (str_eq c.id "k1") [
    | true ↦ refused (http 429)
    | false ↦ answered (some (record { upstream_task_id = "up"; media = [] }))
  ];
  interrupts = λ n try. none;
  poll = λ n c id.
      answer (record { status = done; progressed = true; media = "a" ∷ "b" ∷ []; error = "" });
  provider_of = λ t. "veo";
  updated_at = λ n t. t.created_at;
  files = some files;
  task_timeout = 7200 * second;
  describe = λ e. "failed";
  is_network_error = λ e. false;
}

-- No key gets a task.
abbrev busy : Outside
busy = record outside { create = λ n try c body. refused (http 429) }

abbrev input : StartInput
input = record {
  user_id = "ann";
  tenant_id = "acme";
  provider = "veo";
  mode = "";
  credential_id = "";
  body = "{}";
  priced = some (pos 7, pos 10);
}

abbrev status_of : Option GenerationTask → Option GenerationStatus
status_of none = none
status_of (some t) = some t.status

abbrev balance : Option UserCredit → ℤ
balance none = pos 0
balance (some row) = row.balance

-- The first key is refused, the second one makes the task, which then succeeds.
abbrev made : Db
made = run (start outside input ∷ poll (record outside { clock = λ n. 100 + 2 * second }) ∷ []) db

made_status : status_of (find_task "t1" made.generation_tasks) ≡ some succeeded
unfolding run start_task poll_once reserve_and_create_task ◌>>=◌ send transaction attempt recover
    read look_credit first_credit save_credit create_transaction create_task count_user_tasks
    count_of_task first_transaction first_task updates_task find_credit find_task find_transaction
    count_transactions count_tasks update_task save_row wrap64 ◌+ℤ◌
made_status = refl

-- Every key is refused, and the points come back.
abbrev lost : Db
lost = run (start busy input ∷ []) db

lost_status : status_of (find_task "t1" lost.generation_tasks) ≡ some failed
unfolding run start_task reserve_and_create_task fail_task_and_refund ◌>>=◌ send transaction attempt
    recover read look_credit first_credit save_credit create_transaction create_task
    count_user_tasks count_of_task first_transaction first_task updates_task find_credit find_task
    find_transaction count_transactions count_tasks update_task save_row wrap64 ◌+ℤ◌
lost_status = refl

lost_balance : balance (find_credit "ann" lost.user_credits) ≡ pos 25
unfolding run start_task reserve_and_create_task fail_task_and_refund ◌>>=◌ send transaction attempt
    recover read look_credit first_credit save_credit create_transaction create_task
    count_user_tasks count_of_task first_transaction first_task updates_task find_credit find_task
    find_transaction count_transactions count_tasks update_task save_row wrap64 ◌+ℤ◌ ◌-ℤ◌ neg_ℤ
lost_balance = refl

run-Sound_example : Integrity lost.tables × RefundedOnce lost.tables
unfolding find_credit sum_of wrap64 count_transactions ◌+ℤ◌
run-Sound_example = run-Sound (start busy input ∷ []) db (λ u. ground arith) (λ id. ground arith)

start_task-Paid_example :
    Ends (Paid busy input db.tables) (Unpaid busy input db.tables) (start_task busy input db)
unfolding find_credit find_task find_transaction count_transactions
start_task-Paid_example =
    start_task-Paid busy input db (λ n. refl) (omega arith, omega arith)
      (λ n. record { named = refl; no_task = refl; no_charge = refl; no_refund = refl })
      (λ rule_id cost e. ground arith)

finalize_succeeded-Saved_example :
    Ends
      (Saved outside files "t1" ("a" ∷ "b" ∷ []) db)
      (λ t. t ≡ db.tables)
      (finalize_succeeded outside "t1" ("a" ∷ "b" ∷ []) db)
finalize_succeeded-Saved_example =
    finalize_succeeded-Saved outside files "t1" ("a" ∷ "b" ∷ []) db refl

abbrev task : GenerationTask
task = record {
  id = "t1";
  user_id = "ann";
  tenant_id = "acme";
  status = running;
  upstream_task_id = "up";
  credential_id = "k1";
  rule_id = pos 7;
  cost = pos 10;
  created_at = 100;
  next_poll_at = some (100 + 1 * second);
  poll_interval = 1;
  upstream_status = "";
  upstream_error = "";
  refund_status = none_yet;
  refund_amount = pos 0;
  refunded_at = none;
  completed_at = none;
}

abbrev running_db : Db
running_db = record db { tables = record db.tables { generation_tasks = task ∷ [] } }

due_tasks-IsBatch_example :
    IsBatch
      (λ t. t.created_at)
      110
      (task ∷ record task { id = "t2"; next_poll_at = some 120 } ∷ [])
      (due_tasks
        (λ t. t.created_at)
        110
        (task ∷ record task { id = "t2"; next_poll_at = some 120 } ∷ []))
due_tasks-IsBatch_example =
    due_tasks-IsBatch (λ t. t.created_at) 110
      (task ∷ record task { id = "t2"; next_poll_at = some 120 } ∷ [])
