-- ===== src/Credit/Closed.antt =====
-- The writes of internal/service/credit.go, and the properties of the tables that they keep.
use license_server_ai.Base.{String, ◌≡◌, false, none, some, ◌++◌, ◌∷◌, []}
use license_server_ai.Base.Int.{ℤ, pos, neg_ℤ, leb_ℤ, ltb_ℤ, wrap64, ◌+ℤ◌}
use license_server_ai.Model.Credit.{UserCredit, CreditTransaction, consume, refund}
use license_server_ai.Model.Generation.{GenerationTask}
use license_server_ai.Database.Core.{Tables}
use license_server_ai.Database.Tables.{
  find_credit, save_row, find_task, find_transaction, count_transactions,
}
use license_server_ai.Database.Statements.{with_credit, with_task, with_update, with_limit}
use license_server_ai.Credit.Refunds.{refund_row, refund_transaction}
use license_server_ai.Credit.Accounts.{
  new_credit, adjust_row, adjust_transaction, charge_row, consume_transaction,
}

-- What a change of a balance writes: the new row, and the entry that accounts for it.
abbrev pub with_change : UserCredit → CreditTransaction → Tables → Tables
with_change row tx t = record t {
  user_credits = save_row row t.user_credits;
  credit_transactions = t.credit_transactions ++ tx ∷ [];
}

-- What has to be shown of a property, for every operation to keep it: one law for each way in
-- which the operations write the tables, under what they have tested by then.
pub record Closed (P : Tables → Type 0) : Type 0 where
  pub created :
      (u : String) (t : Tables)
      → P t
      → find_credit u t.user_credits ≡ none
      → P (with_credit (new_credit u) t)
  pub adjusted :
      (u : String) (amount : ℤ) (operator note : String) (t : Tables) (row : UserCredit)
      → P t
      → find_credit u t.user_credits ≡ some row
      → ltb_ℤ (wrap64 (row.balance +ℤ amount)) (pos 0) ≡ false
      → P (
          with_change
            (adjust_row row amount)
            (adjust_transaction u amount operator note (adjust_row row amount))
            t)
  pub charged :
      (u : String) (cost : ℤ) (task_id : String) (rule_id : ℤ) (t : Tables) (row : UserCredit)
      → P t
      → find_credit u t.user_credits ≡ some row
      → leb_ℤ cost (pos 0) ≡ false
      → ltb_ℤ row.balance cost ≡ false
      → P (
          with_change
            (charge_row row cost)
            (consume_transaction u cost task_id rule_id (charge_row row cost))
            t)
  pub tasked :
      (task : GenerationTask) (t : Tables)
      → P t
      → find_task task.id t.generation_tasks ≡ none
      → P (with_task task t)
  pub paid_back :
      (paid : CreditTransaction) (id note : String) (t : Tables) (row : UserCredit)
      → P t
      → count_transactions id refund t.credit_transactions ≡ 0
      → find_transaction id consume t.credit_transactions ≡ some paid
      → find_credit paid.user_id t.user_credits ≡ some row
      → P (
          with_change
            (refund_row row (wrap64 (neg_ℤ paid.amount)))
            (refund_transaction paid note (refund_row row (wrap64 (neg_ℤ paid.amount))))
            t)
  pub limited : (u : String) (limit : ℤ) (t : Tables) → P t → P (with_limit u limit t)
  pub updated :
      (id : String) (f : GenerationTask → GenerationTask) (t : Tables)
      → P t
      → P (with_update id f t)
