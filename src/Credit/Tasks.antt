-- ===== src/Credit/Tasks.antt =====
-- internal/service/credit.go, `ReserveAndCreateTask`: check the concurrency limit, charge and
-- create the task in one transaction.
use license_server_ai.Base.{
  String, not, Option, none, some, List, [], ◌∷◌, if◌then◌else◌, leb, str_eq,
}
use license_server_ai.Base.Int.{ℤ, pos, pos_part, ltb_ℤ, leb_ℤ, eqb_ℤ}
use license_server_ai.Model.Credit.{UserCredit}
use license_server_ai.Model.Generation.{GenerationStatus, pending, running, GenerationTask}
use license_server_ai.Database.Core.{
  M, insufficient_balance, concurrent_limit, cost_not_positive, empty_task_id, empty_user_id,
  user_mismatch, pure, raise, transaction, ◌>>=◌, ◌>>◌,
}
use license_server_ai.Database.Statements.{
  first_credit, save_credit, create_transaction, create_task, count_user_tasks,
}
use license_server_ai.Credit.Accounts.{Change, ensure_user, charge_row, consume_transaction}

pub record ReserveTaskInput : Type 0 where
  pub user_id : String
  pub cost : ℤ
  pub task : Option GenerationTask
  pub rule_id : ℤ
  pub limit_status : List GenerationStatus

-- `running >= int64(limit)`, tested only where the limit is positive.
unfoldable pub check_limit : String → UserCredit → List GenerationStatus → M (Unit {0})
check_limit u row st =
    if ltb_ℤ (pos 0) row.concurrent_limit
    then (do
      n ← count_user_tasks u st
      if leb (pos_part row.concurrent_limit) n then raise concurrent_limit else pure tt)
    else pure tt

unfoldable pub reserve_task_body :
    String → ℤ → GenerationTask → ℤ → List GenerationStatus → M Change
unfolding charge_row check_limit
reserve_task_body u cost task rule_id st = do
  row ← first_credit u
  check_limit u row st
  if ltb_ℤ row.balance cost then raise insufficient_balance else do
    save_credit (charge_row row cost)
    create_transaction (consume_transaction u cost task.id rule_id (charge_row row cost))
    create_task task
    pure (charge_row row cost, consume_transaction u cost task.id rule_id (charge_row row cost))

-- `if v == "" { v = d }`, and the same for a rule id and for the statuses that are counted.
abbrev pub or_text : String → String → String
or_text v d = if str_eq v "" then d else v

abbrev pub or_rule : ℤ → ℤ → ℤ
or_rule v d = if eqb_ℤ v (pos 0) then d else v

abbrev pub or_statuses : List GenerationStatus → List GenerationStatus
or_statuses [] = pending ∷ running ∷ []
or_statuses (s ∷ ss) = s ∷ ss

unfoldable pub reserve_for : String → ℤ → GenerationTask → ℤ → List GenerationStatus → M Change
unfolding ensure_user reserve_task_body
reserve_for u cost task rule_id st =
    if str_eq u ""
    then raise empty_user_id
    else if not (str_eq (or_text task.user_id u) u)
    then raise user_mismatch
    else do
      ensure_user u
      transaction (
          reserve_task_body u cost (record task { user_id = or_text task.user_id u })
            (or_rule rule_id task.rule_id) (or_statuses st))

unfoldable pub reserve_checked : ReserveTaskInput → Option GenerationTask → M Change
unfolding reserve_for
reserve_checked input none = raise empty_task_id
reserve_checked input (some task) =
    if str_eq task.id ""
    then raise empty_task_id
    else reserve_for (or_text input.user_id task.user_id) input.cost task input.rule_id
        input.limit_status

-- `ReserveAndCreateTask`.
unfoldable pub reserve_and_create_task : ReserveTaskInput → M Change
unfolding reserve_checked
reserve_and_create_task input =
    if leb_ℤ input.cost (pos 0) then raise cost_not_positive else reserve_checked input input.task
