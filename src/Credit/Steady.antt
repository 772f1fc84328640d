-- ===== src/Credit/Steady.antt =====
-- Two calls of internal/service/credit.go leave the plan of the faults alone.
use license_server_ai.Base.{ℕ, String, str_eq, not, Option, none, some, List}
use license_server_ai.Base.Int.{ℤ}
use license_server_ai.Model.Credit.{UserCredit, CreditTransaction}
use license_server_ai.Model.Generation.{GenerationTask, GenerationStatus}
use license_server_ai.Database.Core.{pure}
use license_server_ai.Database.Statements.{
  first_credit, look_credit, save_credit, create_transaction, create_task, count_user_tasks,
  first_task, updates_task, count_of_task, first_transaction,
}
use license_server_ai.Database.Steady.{
  Steady, pure-Steady, raise-Steady, bind-Steady, if-Steady, recover-Steady, send-Steady,
  transaction-Steady,
}
use license_server_ai.Credit.Accounts.{new_credit, ensure_found, ensure_user}
use license_server_ai.Credit.Tasks.{
  ReserveTaskInput, check_limit, reserve_task_body, reserve_for, reserve_checked,
  reserve_and_create_task, or_text,
}
use license_server_ai.Credit.Refunds.{
  Settlement, pay_back, recorded_amount, settle_existing, settle_paid, settle_open, settle,
  fail_body, fail_task_and_refund, recorded,
}

ensure_user-Steady : (u : String) → Steady (ensure_user u)
unfolding ensure_user look_credit save_credit ensure_found
ensure_user-Steady u = bind-Steady (look_credit u) (ensure_found u) (send-Steady _) found
  where
    found : (o : Option UserCredit) → Steady (ensure_found u o)
    found (some row) = pure-Steady row
    found none =
        bind-Steady (save_credit (new_credit u)) (λ _. pure (new_credit u)) (send-Steady _)
          (λ _. pure-Steady (new_credit u))

check_limit-Steady :
    (u : String) (row : UserCredit) (st : List GenerationStatus) → Steady (check_limit u row st)
unfolding check_limit count_user_tasks
check_limit-Steady u row st =
    if-Steady _ _ _
      (bind-Steady _ _ (send-Steady _) (λ n. if-Steady _ _ _ (raise-Steady _ _) (pure-Steady tt)))
      (pure-Steady tt)

reserve_task_body-Steady :
    (u : String) (cost : ℤ) (task : GenerationTask) (rule_id : ℤ) (st : List GenerationStatus)
    → Steady (reserve_task_body u cost task rule_id st)
unfolding reserve_task_body first_credit save_credit create_transaction create_task
reserve_task_body-Steady u cost task rule_id st = bind-Steady _ _ (send-Steady _) λ row.
    bind-Steady _ _ (check_limit-Steady u row st) λ _. if-Steady _ _ _ (raise-Steady _ _) (
      bind-Steady _ _ (send-Steady _) λ _.
        bind-Steady _ _ (send-Steady _) λ _. bind-Steady _ _ (send-Steady _) (λ _. pure-Steady _))

reserve_for-Steady :
    (u : String) (cost : ℤ) (task : GenerationTask) (rule_id : ℤ) (st : List GenerationStatus)
    → Steady (reserve_for u cost task rule_id st)
unfolding reserve_for
reserve_for-Steady u cost task rule_id st = if-Steady (str_eq u "") _ _ (raise-Steady _ _) (
    if-Steady (not (str_eq (or_text task.user_id u) u)) _ _ (raise-Steady _ _) (
      bind-Steady _ _ (ensure_user-Steady u)
        (λ _. transaction-Steady _ (reserve_task_body-Steady u cost _ _ _))))

reserve_checked-Steady :
    (input : ReserveTaskInput) (o : Option GenerationTask) → Steady (reserve_checked input o)
unfolding reserve_checked
reserve_checked-Steady input none = raise-Steady _ _
reserve_checked-Steady input (some task) = if-Steady (str_eq task.id "") _ _ (raise-Steady _ _) (
    reserve_for-Steady (or_text input.user_id task.user_id) input.cost task input.rule_id
      input.limit_status)

pub reserve_and_create_task-Steady :
    (input : ReserveTaskInput) → Steady (reserve_and_create_task input)
unfolding reserve_and_create_task
reserve_and_create_task-Steady input =
    if-Steady _ _ _ (raise-Steady _ _) (reserve_checked-Steady input input.task)

pay_back-Steady : (paid : CreditTransaction) (note : String) → Steady (pay_back paid note)
unfolding pay_back first_credit save_credit create_transaction
pay_back-Steady paid note =
    bind-Steady _ _ (send-Steady _) λ row.
      bind-Steady _ _ (send-Steady _) λ _. bind-Steady _ _ (send-Steady _) (λ _. pure-Steady _)

settle_existing-Steady :
    (id : String) (now : ℕ) (s : Settlement) → Steady (settle_existing id now s)
unfolding settle_existing recorded_amount first_transaction
settle_existing-Steady id now s =
    bind-Steady _ _
      (if-Steady _ _ _ (recover-Steady _ _ (bind-Steady _ _ (send-Steady _) (λ _. pure-Steady _)))
        (pure-Steady s.amount))
      (λ _. pure-Steady _)

settle_paid-Steady :
    (note : String) (now : ℕ) (s : Settlement) (o : Option CreditTransaction)
    → Steady (settle_paid note now s o)
unfolding settle_paid
settle_paid-Steady note now s none = pure-Steady _
settle_paid-Steady note now s (some paid) =
    bind-Steady _ _ (pay_back-Steady paid note) (λ _. pure-Steady _)

settle-Steady :
    (id note : String) (now : ℕ) (task : GenerationTask) → Steady (settle id note now task)
unfolding settle settle_open count_of_task first_transaction
settle-Steady id note now task = if-Steady _ _ _ (pure-Steady _) (
    bind-Steady _ _ (send-Steady _) λ n.
      if-Steady _ _ _ (settle_existing-Steady id now (recorded task))
        (bind-Steady _ _ (send-Steady _) (λ o. settle_paid-Steady note now (recorded task) o)))

pub fail_task_and_refund-Steady :
    (id reason note : String) (now : ℕ) → Steady (fail_task_and_refund id reason note now)
unfolding fail_task_and_refund fail_body first_task updates_task
fail_task_and_refund-Steady id reason note now = if-Steady _ _ _ (raise-Steady _ _) (
    transaction-Steady _ (
      bind-Steady _ _ (send-Steady _) λ task.
        bind-Steady _ _ (settle-Steady id (or_text note reason) now task)
          λ s. bind-Steady _ _ (send-Steady _) (λ _. pure-Steady _)))
