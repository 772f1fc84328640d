-- ===== src/Credit/Success.antt =====
-- Calls of internal/service/credit.go that must succeed: no statement fails, and their conditions
-- hold.
use mathlib.Core.Path.{subst}
use license_server_ai.Base.{
  ◌≡◌, refl, sym, ap, ◌∙◌, List, String, true, false, not, none, some, str_eq, Bool-cases, inl, inr,
}
use license_server_ai.Base.Int.{ℤ, pos, leb_ℤ, ltb_ℤ}
use license_server_ai.Model.Credit.{UserCredit}
use license_server_ai.Model.Generation.{GenerationTask, GenerationStatus}
use license_server_ai.Credit.Charges.{owned_task}
use license_server_ai.Credit.Frames.{HasRoom}
use license_server_ai.Database.Core.{
  Db, Tables, ok, pure, raise, concurrent_limit, insufficient_balance,
}
use license_server_ai.Database.Tables.{find_credit, find_task, count_tasks}
use license_server_ai.Database.Statements.{
  first_credit, look_credit, save_credit, create_transaction, create_task, count_user_tasks,
  with_task, insert_task,
}
use license_server_ai.Database.Success.{
  Healthy, Succeeds, succeeds, Succeeds-ok, else-Succeeds, then-Succeeds, send-then-Succeeds,
  bind-Succeeds, transaction-Succeeds,
}
use license_server_ai.Credit.Accounts.{ensure_user, Change}
use license_server_ai.Credit.Tasks.{
  ReserveTaskInput, check_limit, reserve_task_body, reserve_for, reserve_checked,
  reserve_and_create_task, or_text, or_statuses,
}

-- The user's row is there.
ensure_user-Succeeds :
    (u : String) (row : UserCredit) (d : Db)
    → Healthy d
    → find_credit u d.user_credits ≡ some row
    → Succeeds (λ _ t. t ≡ d.tables) (ensure_user u d)
unfolding ensure_user look_credit
ensure_user-Succeeds u row d healthy found =
    send-then-Succeeds _ _ d (some row) d.tables healthy (rw found refl)
      (λ d' healthy' same. succeeds healthy' same)

check_limit-Succeeds :
    (u : String) (row : UserCredit) (st : List GenerationStatus) (d : Db)
    → Healthy d
    → HasRoom u row st d.tables
    → Succeeds (λ _ t. t ≡ d.tables) (check_limit u row st d)
unfolding check_limit count_user_tasks
check_limit-Succeeds u row st d healthy room =
    elim (Bool-cases (ltb_ℤ (pos 0) row.concurrent_limit)) [
      | inl limited ↦ then-Succeeds _ _ (pure tt) d limited (
          send-then-Succeeds _ _ d (count_tasks u st d.generation_tasks) d.tables healthy refl
            (λ d' healthy' same.
              else-Succeeds _ (raise concurrent_limit) (pure tt) d' (room limited)
                (succeeds healthy' same)))
      | inr unlimited ↦ else-Succeeds _ _ (pure tt) d unlimited (succeeds healthy refl)
    ]

-- The transaction of `ReserveAndCreateTask`.
reserve_task_body-Succeeds :
    (u : String) (cost : ℤ) (task : GenerationTask) (rule_id : ℤ) (st : List GenerationStatus)
    (row : UserCredit) (d : Db)
    → Healthy d
    → find_credit u d.user_credits ≡ some row
    → HasRoom u row st d.tables
    → ltb_ℤ row.balance cost ≡ false
    → find_task task.id d.generation_tasks ≡ none
    → Succeeds (λ _ _. Unit) (reserve_task_body u cost task rule_id st d)
unfolding reserve_task_body first_credit save_credit create_transaction create_task
reserve_task_body-Succeeds u cost task rule_id st row d healthy found room enough fresh =
    send-then-Succeeds _ _ d row d.tables healthy (rw found refl) λ d1 h1 e1.
      bind-Succeeds (λ _ t. t ≡ d1.tables) (check_limit u row st) _ d1
        (check_limit-Succeeds u row st d1 h1 (subst (HasRoom u row st) (sym e1) room))
        λ _ d2 h2 e2. else-Succeeds _ (raise insufficient_balance) _ d2 enough (
          send-then-Succeeds _ _ d2 tt _ h2 refl λ d3 h3 e3.
            send-then-Succeeds _ _ d3 tt _ h3 refl λ d4 h4 e4.
              send-then-Succeeds _ _ d4 tt (with_task task d4.tables) h4
                (ap (insert_task task d4.tables)
                  (unused e4 ∙ unused e3 ∙ unused e2 ∙ unused e1 ∙ fresh))
                λ d5 h5 e5. succeeds h5 tt)
  where
    unused :
        {t t' : Tables}
        → t ≡ t'
        → find_task task.id t.generation_tasks ≡ find_task task.id t'.generation_tasks
    unused e = ap (λ t. find_task task.id t.generation_tasks) e

-- `ReserveAndCreateTask` succeeds when no statement fails, the cost is positive, the task has an id
-- that no stored task has, the user is named and is the task's, and the user's row has room for one
-- more task and a balance that covers the cost.
pub reserve_and_create_task-Succeeds :
    (input : ReserveTaskInput) (task : GenerationTask) (row : UserCredit) (d : Db)
    → input.task ≡ some task
    → leb_ℤ input.cost (pos 0) ≡ false
    → str_eq task.id "" ≡ false
    → let u = or_text input.user_id task.user_id in
      str_eq u "" ≡ false
      → str_eq (or_text task.user_id u) u ≡ true
      → Healthy d
      → find_credit u d.user_credits ≡ some row
      → HasRoom u row (or_statuses input.limit_status) d.tables
      → ltb_ℤ row.balance input.cost ≡ false
      → find_task task.id d.generation_tasks ≡ none
      → (c : Change) × ((reserve_and_create_task input d).0 ≡ ok c)
unfolding reserve_and_create_task reserve_checked reserve_for
reserve_and_create_task-Succeeds input task row d given positive has_id named owned healthy found
      room enough fresh =
    let u = or_text input.user_id task.user_id in
    Succeeds-ok {Q = λ _ _. Unit} (
      else-Succeeds _ _ _ d positive (
        simp given (
          else-Succeeds _ _ _ d has_id (
            else-Succeeds _ _ _ d named (
              else-Succeeds _ _ _ d (ap not owned) (
                bind-Succeeds (λ _ t. t ≡ d.tables) (ensure_user u) _ d
                  (ensure_user-Succeeds u row d healthy found)
                  λ _ d1 h1 e1. transaction-Succeeds _ d1 h1 λ d2 h2 e2.
                    reserve_task_body-Succeeds u input.cost (owned_task u task) _ _ row d2 h2
                      (ap (λ t. find_credit u t.user_credits) (e2 ∙ e1) ∙ found)
                      (subst (HasRoom u row (or_statuses input.limit_status)) (sym (e2 ∙ e1)) room)
                      enough
                      (ap (λ t. find_task task.id t.generation_tasks) (e2 ∙ e1) ∙ fresh)))))))
