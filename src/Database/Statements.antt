-- ===== src/Database/Statements.antt =====
-- The statements that the credit service sends, one function for each kind.
use license_server_ai.Base.{ℕ, String, Option, none, some, List, [], ◌∷◌, ◌++◌}
use license_server_ai.Base.Int.{ℤ}
use license_server_ai.Model.Credit.{UserCredit, TransactionTyp, CreditTransaction}
use license_server_ai.Model.Generation.{GenerationStatus, GenerationTask}
use license_server_ai.Database.Core.{M, Tables, Result, ok, err, db_failure, record_not_found, send}
use license_server_ai.Database.Tables.{
  find_credit, save_row, find_transaction, count_transactions, find_task, update_task, count_tasks,
  update_limit,
}

-- `First` without a match is `gorm.ErrRecordNotFound`.
abbrev pub first : {A : Type 0} → Tables → Option A → Result (A × Tables)
first t none = err record_not_found
first t (some a) = ok (a, t)

-- What the writes make of the tables.
abbrev pub with_credit : UserCredit → Tables → Tables
with_credit row t = record t { user_credits = save_row row t.user_credits }

abbrev pub with_transaction : CreditTransaction → Tables → Tables
with_transaction tx t = record t { credit_transactions = t.credit_transactions ++ tx ∷ [] }

abbrev pub with_task : GenerationTask → Tables → Tables
with_task task t = record t { generation_tasks = t.generation_tasks ++ task ∷ [] }

abbrev pub with_update : String → (GenerationTask → GenerationTask) → Tables → Tables
with_update id f t = record t { generation_tasks = update_task id f t.generation_tasks }

abbrev pub with_limit : String → ℤ → Tables → Tables
with_limit u limit t = record t { user_credits = update_limit u limit t.user_credits }

-- First(&row, "user_id = ?"); a row lock of a transaction that runs alone reads the same row.
unfoldable pub first_credit : String → M UserCredit
first_credit u = send (λ t. first t (find_credit u t.user_credits))

-- The same read where the caller goes on without a row.
unfoldable pub look_credit : String → M (Option UserCredit)
look_credit u = send (λ t. ok (find_credit u t.user_credits, t))

unfoldable pub save_credit : UserCredit → M (Unit {0})
save_credit row = send (λ t. ok (tt, with_credit row t))

unfoldable pub create_transaction : CreditTransaction → M (Unit {0})
create_transaction tx = send (λ t. ok (tt, with_transaction tx t))

unfoldable pub count_of_task : String → TransactionTyp → M ℕ
count_of_task id k = send (λ t. ok (count_transactions id k t.credit_transactions, t))

-- `none` is `gorm.ErrRecordNotFound`, which the callers tell from the other errors.
unfoldable pub first_transaction : String → TransactionTyp → M (Option CreditTransaction)
first_transaction id k = send (λ t. ok (find_transaction id k t.credit_transactions, t))

unfoldable pub first_task : String → M GenerationTask
first_task id = send (λ t. first t (find_task id t.generation_tasks))

abbrev pub insert_task :
    GenerationTask → Tables → Option GenerationTask → Result ((Unit {0}) × Tables)
insert_task task t (some _) = err db_failure
insert_task task t none = ok (tt, with_task task t)

-- INSERT; a second row with the same primary key is refused.
unfoldable pub create_task : GenerationTask → M (Unit {0})
create_task task = send (λ t. insert_task task t (find_task task.id t.generation_tasks))

unfoldable pub updates_task : String → (GenerationTask → GenerationTask) → M (Unit {0})
updates_task id f = send (λ t. ok (tt, with_update id f t))

unfoldable pub count_user_tasks : String → List GenerationStatus → M ℕ
count_user_tasks u st = send (λ t. ok (count_tasks u st t.generation_tasks, t))

-- An UPDATE that matches no row is no error.
unfoldable pub updates_limit : String → ℤ → M (Unit {0})
updates_limit u limit = send (λ t. ok (tt, with_limit u limit t))

unfoldable pub read : {A : Type 0} → (Tables → A) → M A
read g = send (λ t. ok (g t, t))
