-- ===== src/Credit/Tests.antt =====
-- The credit service on concrete tables.
use license_server_ai.Base.{◌≡◌, refl, false, none, some, List, [], ◌∷◌, ◌==◌, arith}
use license_server_ai.Base.Int.{pos, negsuc, wrap64}
use license_server_ai.Model.Credit.{UserCredit, CreditTransaction, adjust, consume, refund}
use license_server_ai.Model.Generation.{GenerationTask, pending, none_yet}
use license_server_ai.Model.Sync.{no_sync_tables}
use license_server_ai.Database.Core.{Db, Tables}
use license_server_ai.Database.Tables.{
  find_credit, find_task, find_transaction, count_transactions, sum_of,
}
use license_server_ai.Database.Ends.{Ends}
use license_server_ai.Credit.Accounts.{new_credit}
use license_server_ai.Credit.Tasks.{ReserveTaskInput, reserve_and_create_task, or_statuses}
use license_server_ai.Credit.Refunds.{refund_task, fail_task_and_refund}
use license_server_ai.Credit.Ledger.{Integrity, Exact}
use license_server_ai.Credit.RefundOnce.{RefundedOnce}
use license_server_ai.Credit.Charges.{
  Charged, SameAccounts, owned_task, reserve_and_create_task-Charged,
}
use license_server_ai.Credit.Repayment.{Pays, refund_task-Pays, refund_task-again}
use license_server_ai.Credit.Settlement.{FailedWith, fail_task_and_refund-FailedWith}
use license_server_ai.Base.{sym, ap, Option, none}
use license_server_ai.Database.Core.{ok}
use license_server_ai.Database.Tables.{count_tasks}
use license_server_ai.Credit.Accounts.{Change}
use license_server_ai.Credit.Refunds.{Settlement}
use license_server_ai.Credit.Success.{reserve_and_create_task-Succeeds}
use license_server_ai.Credit.RefundSuccess.{fail_task_and_refund-Succeeds}
use license_server_ai.Credit.Trace.{
  Call, ensure, adjust as adjust_call, reserve_task, refund_points, fail, set_limit, run,
  run-Integrity, run-RefundedOnce,
}

abbrev task : GenerationTask
task = record {
  id = "t1";
  user_id = "ann";
  tenant_id = "acme";
  status = pending;
  upstream_task_id = "";
  credential_id = "";
  rule_id = pos 7;
  cost = pos 10;
  created_at = 100;
  next_poll_at = none;
  poll_interval = 5;
  upstream_status = "";
  upstream_error = "";
  refund_status = none_yet;
  refund_amount = pos 0;
  refunded_at = none;
  completed_at = none;
}

abbrev input : ReserveTaskInput
input = record {
  user_id = "ann";
  cost = pos 10;
  task = some task;
  rule_id = pos 0;
  limit_status = [];
}

abbrev no_tables : Tables
no_tables = record {
  user_credits = [];
  credit_transactions = [];
  generation_tasks = [];
  team_members = [];
  customers = [];
  licenses = [];
  license_events = [];
  devices = [];
  sync = no_sync_tables;
  provider_credentials = [];
}

-- The second statement of the run fails.
abbrev empty_db : Db
empty_db = record { tables = no_tables; faults = λ n. n == 1; calls = 0 }

abbrev calls : List Call
calls =
    ensure "ann"
    ∷ set_limit "ann" (pos 2)
    ∷ adjust_call "ann" (pos 25) "root" "top up"
    ∷ reserve_task input
    ∷ fail "t1" "timeout" "" 200
    ∷ refund_points "t1" "again"
    ∷ []

run-Integrity_example : Integrity (run calls empty_db).tables × Exact (run calls empty_db).tables
unfolding find_credit sum_of wrap64
run-Integrity_example = run-Integrity calls empty_db (λ u. refl)

run-RefundedOnce_example : RefundedOnce (run calls empty_db).tables
unfolding count_transactions
run-RefundedOnce_example = run-RefundedOnce calls empty_db (λ id. omega arith)

abbrev paid_in : CreditTransaction
paid_in = record {
  user_id = "ann";
  amount = pos 25;
  typ = adjust;
  task_id = "";
  rule_id = pos 0;
  balance_after = pos 25;
  operator_id = "root";
  note = "top up";
}

abbrev paid : CreditTransaction
paid = record {
  user_id = "ann";
  amount = negsuc 9;
  typ = consume;
  task_id = "t1";
  rule_id = pos 7;
  balance_after = pos 15;
  operator_id = "";
  note = "";
}

abbrev full_row : UserCredit
full_row = record (new_credit "ann") { balance = pos 25; total_topup = pos 25 }

abbrev full_tables : Tables
full_tables = record no_tables { user_credits = full_row ∷ []; credit_transactions = paid_in ∷ [] }

abbrev full_db : Db
full_db = record { tables = full_tables; faults = λ n. false; calls = 0 }

reserve_and_create_task-Charged_example :
    Ends
      (Charged "ann" (pos 10) (owned_task "ann" task) (or_statuses []) full_tables)
      (SameAccounts full_tables)
      (reserve_and_create_task input full_db)
unfolding find_credit
reserve_and_create_task-Charged_example =
    reserve_and_create_task-Charged full_db input task refl (omega arith, omega arith)

abbrev charged_row : UserCredit
charged_row = record full_row { balance = pos 15; total_consumed = pos 10 }

abbrev charged_tables : Tables
charged_tables = record no_tables {
  user_credits = charged_row ∷ [];
  credit_transactions = paid_in ∷ paid ∷ [];
  generation_tasks = task ∷ [];
}

abbrev charged_db : Db
charged_db = record { tables = charged_tables; faults = λ n. false; calls = 0 }

refund_task-Pays_example :
    Ends
      (λ _. Pays "t1" paid charged_tables)
      (λ t. t ≡ charged_tables)
      (refund_task "t1" "sorry" charged_db)
unfolding find_transaction
refund_task-Pays_example = refund_task-Pays "t1" "sorry" charged_db paid refl

abbrev refunded_db : Db
refunded_db = record charged_db {
  tables = record charged_tables {
    credit_transactions = paid_in ∷ paid ∷ record paid { amount = pos 10; typ = refund } ∷ [];
  };
}

refund_task-again_example :
    Ends (λ _ _. ⊥) (λ t. t ≡ refunded_db.tables) (refund_task "t1" "sorry" refunded_db)
unfolding count_transactions
refund_task-again_example = refund_task-again "t1" "sorry" refunded_db (omega arith)

fail_task_and_refund-FailedWith_example :
    Ends
      (FailedWith "t1" "timeout" 200 charged_tables task)
      (λ t. t ≡ charged_tables)
      (fail_task_and_refund "t1" "timeout" "" 200 charged_db)
unfolding find_task
fail_task_and_refund-FailedWith_example =
    fail_task_and_refund-FailedWith "t1" "timeout" "" 200 charged_db task refl

reserve_and_create_task-Succeeds_example :
    (c : Change) × ((reserve_and_create_task input full_db).0 ≡ ok c)
unfolding find_credit find_task count_tasks
reserve_and_create_task-Succeeds_example =
    reserve_and_create_task-Succeeds input task full_row full_db refl refl refl refl refl
      (λ n. refl) refl (λ limited. refl) refl refl

abbrev row_of : Option CreditTransaction → Option UserCredit
row_of none = none
row_of (some tx) = find_credit tx.user_id charged_tables.user_credits

fail_task_and_refund-Succeeds_example :
    (s : Settlement) × ((fail_task_and_refund "t1" "timeout" "" 200 charged_db).0 ≡ ok s)
unfolding find_credit find_task find_transaction
fail_task_and_refund-Succeeds_example =
    fail_task_and_refund-Succeeds "t1" "timeout" "" 200 task charged_db refl (λ n. refl) refl
      (λ tx e. (charged_row, ap row_of (sym e)))
