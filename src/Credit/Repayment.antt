-- ===== src/Credit/Repayment.antt =====
-- `Refund` of internal/service/credit.go: what a task was charged comes back, and comes back once.
use license_server_ai.Base.{
  ◌<◌, String, ◌≡◌, refl, false, some, List, [], ◌∷◌, ◌++◌, arith, ltb, str_eq, eq_iff,
}
use license_server_ai.Base.Int.{◌+ℤ◌, neg_ℤ, wrap64}
use license_server_ai.Model.Credit.{CreditTransaction, consume, refund}
use license_server_ai.Database.Core.{Db, Tables, tick}
use license_server_ai.Database.Tables.{
  find_credit-save_row, find_credit-user_id, balance_of, find_transaction, count_transactions,
  count_transactions-append,
}
use license_server_ai.Database.Ends.{
  Ends, returns, raises, Ends-if, first_credit-then, save_credit-then, create_transaction-then,
  count_of_task-then, first_transaction-then, transaction-Ends,
}
use license_server_ai.Credit.Refunds.{
  refund_row, refund_transaction, pay_back, pay_back_found, refund_task, refund_body,
}
use license_server_ai.Credit.RefundOnce.{find_transaction-task_id}

-- One entry is appended, which gives the user what `paid` took, for the same task.
pub record Entered (paid : CreditTransaction) (before after : List CreditTransaction) : Type 0 where
  pub entry : CreditTransaction
  pub appended : after ≡ before ++ entry ∷ []
  pub kind : entry.typ ≡ refund
  pub user : entry.user_id ≡ paid.user_id
  pub amount : entry.amount ≡ wrap64 (neg_ℤ paid.amount)
  pub task : entry.task_id ≡ paid.task_id

-- What a repayment of `paid` does.
pub record Pays (id : String) (paid : CreditTransaction) (before t : Tables) : Type 0 where
  pub tasks : t.generation_tasks ≡ before.generation_tasks
  pub entered : Entered paid before.credit_transactions t.credit_transactions
  pub count : count_transactions id refund t.credit_transactions ≡ 1
  pub balance :
      balance_of paid.user_id t.user_credits
      ≡ wrap64 (balance_of paid.user_id before.user_credits +ℤ wrap64 (neg_ℤ paid.amount))

pub pay_back-Pays :
    (id note : String) (d : Db) (paid : CreditTransaction)
    → ltb 0 (count_transactions id refund d.credit_transactions) ≡ false
    → find_transaction id consume d.credit_transactions ≡ some paid
    → Ends (λ _. Pays id paid d.tables) (λ _. Unit) (pay_back paid note d)
unfolding pay_back refund_row
pay_back-Pays id note d paid unpaid found =
    first_credit-then paid.user_id _ d
      (λ row got.
        save_credit-then _ _ (tick d)
          (create_transaction-then _ _ _
            (returns (record {
              tasks = refl;
              entered = record {
                entry = refund_transaction paid note (refund_row row (wrap64 (neg_ℤ paid.amount)));
                appended = refl;
                kind = refl;
                user = refl;
                amount = refl;
                task = refl;
              };
              count = ground (
                arith,
                count_transactions-append id refund d.credit_transactions
                    (refund_transaction paid note (refund_row row (wrap64 (neg_ℤ paid.amount)))),
                find_transaction-task_id id consume d.credit_transactions paid found,
                eq_iff paid.task_id id,
              );
              balance = ground (
                arith,
                find_credit-save_row paid.user_id (refund_row row (wrap64 (neg_ℤ paid.amount)))
                    d.user_credits,
                find_credit-user_id paid.user_id d.user_credits row got,
                eq_iff row.user_id paid.user_id,
              );
            }))
            tt)
          tt)
      tt

-- Once the ledger has a refund of a task, `Refund` never returns for it again, and every call of
-- it leaves the tables as they are.
pub refund_task-again :
    (id note : String) (d : Db)
    → 0 < count_transactions id refund d.credit_transactions
    → Ends (λ _ _. ⊥) (λ t. t ≡ d.tables) (refund_task id note d)
unfolding refund_task refund_body
refund_task-again id note d has =
    Ends-if (str_eq id "") _ _ d (λ _. raises refl)
      λ _. transaction-Ends _ d refl (
        count_of_task-then id refund _ (tick d)
          (Ends-if (ltb 0 (count_transactions id refund d.credit_transactions)) _ _ (tick (tick d))
            (λ _. raises tt) λ zero. absurd (ground arith))
          tt)

-- A refund of a charged task that has none gives the user back what the first charge took, and
-- leaves exactly one refund in the ledger; or it fails and changes nothing.
pub refund_task-Pays :
    (id note : String) (d : Db) (paid : CreditTransaction)
    → find_transaction id consume d.credit_transactions ≡ some paid
    → Ends (λ _. Pays id paid d.tables) (λ t. t ≡ d.tables) (refund_task id note d)
unfolding refund_task refund_body pay_back_found
refund_task-Pays id note d paid found =
    Ends-if (str_eq id "") _ _ d (λ _. raises refl)
      λ _. transaction-Ends _ d refl (
        count_of_task-then id refund _ (tick d)
          (Ends-if (ltb 0 (count_transactions id refund d.credit_transactions)) _ _ (tick (tick d))
            (λ _. raises tt)
            λ unpaid.
              first_transaction-then id consume _ (tick (tick d))
                (rw found (pay_back-Pays id note _ paid unpaid found)) tt)
          tt)
