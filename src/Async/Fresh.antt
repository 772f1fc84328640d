-- ===== src/Async/Fresh.antt =====
-- A task with a fresh id, after the charge of internal/service/credit.go: it is found, and so is its
-- charge.
use license_server_ai.Base.{
  String, ◌≡◌, true, false, none, some, List, [], ◌∷◌, ◌++◌, arith, eq_iff, str_eq,
}
use license_server_ai.Model.Credit.{CreditTransaction, consume, refund}
use license_server_ai.Model.Generation.{GenerationTask}
use license_server_ai.Database.Core.{Tables}
use license_server_ai.Database.Tables.{
  find_task, of_task, find_transaction, count_transactions, count_transactions-append,
}

-- Nothing in the tables has the id.
pub record Fresh (id : String) (t : Tables) : Type 0 where
  pub named : str_eq id "" ≡ false
  pub no_task : find_task id t.generation_tasks ≡ none
  pub no_charge : find_transaction id consume t.credit_transactions ≡ none
  pub no_refund : count_transactions id refund t.credit_transactions ≡ 0

pub find_task-append :
    (task : GenerationTask) (xs : List GenerationTask)
    → find_task task.id xs ≡ none
    → find_task task.id (xs ++ task ∷ []) ≡ some task
unfolding find_task
find_task-append task [] h = ground (arith, eq_iff task.id task.id)
find_task-append task (x ∷ xs) h = ground (arith, find_task-append task xs)

pub find_transaction-append :
    (id : String) (x : CreditTransaction) (xs : List CreditTransaction)
    → of_task id consume x ≡ true
    → find_transaction id consume xs ≡ none
    → find_transaction id consume (xs ++ x ∷ []) ≡ some x
unfolding find_transaction
find_transaction-append id x [] mine h = ground arith
find_transaction-append id x (y ∷ xs) mine h = ground (arith, find_transaction-append id x xs mine)

pub no_refund-append :
    (id : String) (x : CreditTransaction) (xs : List CreditTransaction)
    → of_task id consume x ≡ true
    → count_transactions id refund xs ≡ 0
    → count_transactions id refund (xs ++ x ∷ []) ≡ 0
no_refund-append id x xs mine h = ground (arith, count_transactions-append id refund xs x)
