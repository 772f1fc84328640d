-- ===== src/Credit/RefundOnce.antt =====
-- internal/service/credit.go never refunds a task twice.
use license_server_ai.Base.{
  ◌≤◌, String, ◌≡◌, refl, true, false, some, List, [], ◌∷◌, ◌++◌, arith, eq_iff,
}
use license_server_ai.Model.Credit.{CreditTransaction, TransactionTyp, consume, refund}
use license_server_ai.Database.Core.{Tables}
use license_server_ai.Database.Tables.{
  typ_eq, of_task, find_transaction, count_transactions, count_transactions-append,
}
use license_server_ai.Credit.Closed.{Closed}

abbrev pub RefundedOnce : Tables → Type 0
RefundedOnce t = (id : String) → count_transactions id refund t.credit_transactions ≤ 1

find_transaction-of_task :
    (id : String) (k : TransactionTyp) (xs : List CreditTransaction) (x : CreditTransaction)
    → find_transaction id k xs ≡ some x
    → of_task id k x ≡ true
unfolding find_transaction
find_transaction-of_task id k [] x h = ground arith
find_transaction-of_task id k (y ∷ xs) x h = ground (arith, find_transaction-of_task id k xs x)

pub find_transaction-task_id :
    (id : String) (k : TransactionTyp) (xs : List CreditTransaction) (x : CreditTransaction)
    → find_transaction id k xs ≡ some x
    → x.task_id ≡ id
find_transaction-task_id id k xs x h =
    ground (arith, find_transaction-of_task id k xs x h, eq_iff x.task_id id)

-- An entry of another type is no refund.
count_refunds-other :
    (id : String) (xs : List CreditTransaction) (x : CreditTransaction)
    → typ_eq x.typ refund ≡ false
    → count_transactions id refund xs ≤ 1
    → count_transactions id refund (xs ++ x ∷ []) ≤ 1
count_refunds-other id xs x other h = ground (arith, count_transactions-append id refund xs x)

-- A refund of a task that has none is the only one; other tasks keep theirs.
count_refunds-refund :
    (id i : String) (xs : List CreditTransaction) (x : CreditTransaction)
    → x.task_id ≡ id
    → count_transactions id refund xs ≡ 0
    → count_transactions i refund xs ≤ 1
    → count_transactions i refund (xs ++ x ∷ []) ≤ 1
count_refunds-refund id i xs x same unpaid h =
    ground (arith, count_transactions-append i refund xs x, eq_iff x.task_id i)

pub RefundedOnce-Closed : Closed RefundedOnce
RefundedOnce-Closed = record {
  created = λ u t h fresh id. h id;
  adjusted = λ u amount operator note t row h found enough id.
      count_refunds-other id t.credit_transactions _ refl (h id);
  charged = λ u cost task_id rule_id t row h found positive enough id.
      count_refunds-other id t.credit_transactions _ refl (h id);
  tasked = λ task t h fresh id. h id;
  paid_back = λ paid id note t row h unpaid paid_found found i.
      count_refunds-refund id i t.credit_transactions _
        (find_transaction-task_id id consume t.credit_transactions paid paid_found) unpaid (h i);
  limited = λ u limit t h id. h id;
  updated = λ i f t h id. h id;
}
