-- ===== src/Async/Conclusion.antt =====
-- The end of `StartTask`, internal/service/async_runner.go, in the points of the user: the charge stays
-- with a task that was started, and goes back otherwise.
use mathlib.Core.Path.{subst}
use license_server_ai.Base.{String, ◌≡◌, sym, ap, ◌∙◌, false, some, List, arith, str_eq}
use license_server_ai.Base.Int.{
  ℤ, pos, ◌+ℤ◌, ◌-ℤ◌, neg_ℤ, ◌≤ℤ◌, wrap64, IsInt64, wrap64-eq_of_IsInt64,
}
use license_server_ai.Model.Credit.{UserCredit, CreditTransaction, consume, refund}
use license_server_ai.Database.Core.{Db, Tables, Error, raise, media_failed, create_failed, ◌>>◌}
use license_server_ai.Database.Tables.{
  balance_of, find_credit, find_transaction, count_transactions,
}
use license_server_ai.Database.Ends.{Ends, returns, raises, Ends-bind}
use license_server_ai.Database.Steady.{Ends-weaker}
use license_server_ai.Database.Success.{Healthy}
use license_server_ai.Async.Upstream.{Outside, StartInput, unsaved_media}
use license_server_ai.Async.Start.{StartOutput, Attempts, started, unsaved, gave_up, conclude}
use license_server_ai.Async.Failure.{fail_and_refund}
use license_server_ai.Async.Charge.{Reserved, PaidBack, fail_and_refund-PaidBack}

returned_lem :
    (b cost : ℤ)
    → IsInt64 b
    → IsInt64 cost
    → wrap64 ((b -ℤ cost) +ℤ wrap64 (neg_ℤ (neg_ℤ cost))) ≡ b
unfolding ◌-ℤ◌ neg_ℤ ◌+ℤ◌
returned_lem b cost h k =
    let e : neg_ℤ (neg_ℤ cost) ≡ cost = ground arith in
    let s : (b -ℤ cost) +ℤ cost ≡ b = ground arith in
    ap (λ x. wrap64 ((b -ℤ cost) +ℤ wrap64 x)) e
    ∙ ap (λ x. wrap64 ((b -ℤ cost) +ℤ x)) (wrap64-eq_of_IsInt64 cost k)
    ∙ ap wrap64 s
    ∙ wrap64-eq_of_IsInt64 b h

module _ (w : Outside) (input : StartInput) (before : Tables) where
  -- The user has paid the cost of the task, and could.
  abbrev pub Paid : StartOutput → Tables → Type 0
  Paid out t =
      (balance_of input.user_id t.user_credits
        ≡ balance_of input.user_id before.user_credits -ℤ out.cost)
      × (pos 0 ≤ℤ balance_of input.user_id t.user_credits)

  -- The user has what it had before.
  abbrev pub Unpaid : Tables → Type 0
  Unpaid t = balance_of input.user_id t.user_credits ≡ balance_of input.user_id before.user_credits

  module _ (id : String) (cost : ℤ) (charged : Tables) (paid : CreditTransaction) (row : UserCredit)
      (named : str_eq id "" ≡ false) (owner : paid.user_id ≡ input.user_id)
      (amount : paid.amount ≡ neg_ℤ cost)
      (range : IsInt64 (balance_of input.user_id before.user_credits)) (fits : IsInt64 cost)
      (balance : Paid (record { task_id = id; cost = cost }) charged)
      (entry : find_transaction id consume charged.credit_transactions ≡ some paid)
      (unrefunded : count_transactions id refund charged.credit_transactions ≡ 0)
      (has_row : find_credit paid.user_id charged.user_credits ≡ some row) where
    PaidBack-Unpaid : (t : Tables) → PaidBack id charged w paid row t → Unpaid t
    PaidBack-Unpaid t h =
        subst
          (λ u.
            balance_of u t.user_credits
            ≡ wrap64 (balance_of u charged.user_credits +ℤ wrap64 (neg_ℤ paid.amount)))
          owner h
        ∙ ap (λ x. wrap64 (x +ℤ wrap64 (neg_ℤ paid.amount))) balance.0
        ∙ ap
            (λ x.
              wrap64 ((balance_of input.user_id before.user_credits -ℤ cost) +ℤ wrap64 (neg_ℤ x)))
            amount
        ∙ returned_lem (balance_of input.user_id before.user_credits) cost range fits

    failed_answer :
        (e : Error) (reason note : String) (d : Db)
        → Healthy d
        → Reserved id charged d.tables
        → Ends Paid Unpaid ((do fail_and_refund w id reason note; raise e) d)
    failed_answer e reason note d healthy h =
        Ends-bind (λ _. PaidBack id charged w paid row) (fail_and_refund w id reason note) _ d
          (Ends-weaker PaidBack-Unpaid (
            fail_and_refund-PaidBack id charged w paid row reason note d named healthy h entry
              unrefunded has_row))
          (λ _ d' back. raises (PaidBack-Unpaid d'.tables back))

    pub conclude-Paid :
        (r : Attempts) (d : Db)
        → Healthy d
        → Reserved id charged d.tables
        → Ends Paid Unpaid (conclude w id cost r d)
    unfolding conclude
    conclude-Paid started d healthy h = returns (
        subst
          (λ (rs : List UserCredit).
            (balance_of input.user_id rs ≡ balance_of input.user_id before.user_credits -ℤ cost)
            × (pos 0 ≤ℤ balance_of input.user_id rs))
          (sym h.credits) balance)
    conclude-Paid unsaved d healthy h =
        failed_answer media_failed (w.describe unsaved_media) "保存上游媒体失败" d healthy h
    conclude-Paid (gave_up e) d healthy h = failed_answer create_failed (w.describe e) _ d healthy h
