-- ===== src/Credit/RefundFrames.antt =====
-- `Refund` and `FailTaskAndRefund` of internal/service/credit.go keep a closed property of the
-- tables, whichever statements fail.
use license_server_ai.Base.{String, ◌≡◌, refl, Option, none, some, str_eq, ltb, ℕ, not_ltb_zero}
use license_server_ai.Base.Int.{pos, eqb_ℤ}
use license_server_ai.Model.Credit.{CreditTransaction, consume, refund}
use license_server_ai.Model.Generation.{GenerationTask}
use license_server_ai.Database.Core.{Db, Tables, pure, tick}
use license_server_ai.Database.Tables.{find_transaction, count_transactions}
use license_server_ai.Database.Ends.{
  Ends, returns, raises, Ends-if, Ends-bind, first_credit-then, save_credit-then,
  create_transaction-then, transaction-Ends, recover-Ends, count_of_task-then,
  first_transaction-then, first_task-then, updates_task-then,
}
use license_server_ai.Credit.Tasks.{or_text}
use license_server_ai.Credit.Refunds.{
  pay_back, pay_back_found, refund_task, recorded, Settlement, settle_existing, recorded_amount,
  settle_paid, settle, settle_open, is_settled, known_status, fail_task_and_refund,
}
use license_server_ai.Credit.Closed.{Closed}

module _ (P : Tables → Type 0) (closed : Closed P) where
  pay_back-Ends :
      (paid : CreditTransaction) (id note : String) (d : Db)
      → P d.tables
      → count_transactions id refund d.credit_transactions ≡ 0
      → find_transaction id consume d.credit_transactions ≡ some paid
      → Ends (λ _. P) (λ _. Unit) (pay_back paid note d)
  unfolding pay_back
  pay_back-Ends paid id note d h unpaid found =
      first_credit-then paid.user_id _ d
        (λ row got.
          save_credit-then _ _ (tick d)
            (create_transaction-then _ _ _
              (returns (closed.paid_back paid id note d.tables row h unpaid found got)) tt)
            tt)
        tt

  pay_back_found-Ends :
      (o : Option CreditTransaction) (id note : String) (d : Db)
      → P d.tables
      → count_transactions id refund d.credit_transactions ≡ 0
      → find_transaction id consume d.credit_transactions ≡ o
      → Ends (λ _. P) (λ _. Unit) (pay_back_found note o d)
  unfolding pay_back_found
  pay_back_found-Ends none id note d h unpaid found = raises tt
  pay_back_found-Ends (some paid) id note d h unpaid found =
      pay_back-Ends paid id note d h unpaid found

  pub refund_task-Ends :
      (id note : String) (d : Db) → P d.tables → Ends (λ _. P) P (refund_task id note d)
  unfolding refund_task
  refund_task-Ends id note d h =
      Ends-if (str_eq id "") _ _ d (λ _. raises h)
        λ _. transaction-Ends _ d h (
          count_of_task-then id refund _ (tick d)
            (Ends-if (ltb 0 (count_transactions id refund d.credit_transactions)) _ _
              (tick (tick d)) (λ _. raises tt)
              λ unpaid.
                first_transaction-then id consume _ (tick (tick d))
                  (pay_back_found-Ends _ id note _ h (not_ltb_zero _ unpaid) refl) tt)
            tt)

  settle_existing-Ends :
      (id : String) (now : ℕ) (s : Settlement) (d : Db)
      → P d.tables
      → Ends (λ _. P) (λ _. Unit) (settle_existing id now s d)
  unfolding settle_existing recorded_amount
  settle_existing-Ends id now s d h =
      Ends-bind (λ _. P) _ _ d
        (Ends-if (eqb_ℤ s.amount (pos 0)) (recorded_amount id s.amount) (pure s.amount) d
          (λ _.
            recover-Ends {E = P} _ _ d (first_transaction-then id refund _ d (returns h) h)
              (λ _ h'. h'))
          (λ _. returns h))
        (λ _ _ h'. returns h')

  settle_paid-Ends :
      (o : Option CreditTransaction) (id note : String) (now : ℕ) (s : Settlement) (d : Db)
      → P d.tables
      → count_transactions id refund d.credit_transactions ≡ 0
      → find_transaction id consume d.credit_transactions ≡ o
      → Ends (λ _. P) (λ _. Unit) (settle_paid note now s o d)
  unfolding settle_paid
  settle_paid-Ends none id note now s d h unpaid found = returns h
  settle_paid-Ends (some paid) id note now s d h unpaid found =
      Ends-bind (λ _. P) (pay_back paid note) _ d (pay_back-Ends paid id note d h unpaid found)
        (λ _ _ h'. returns h')

  settle-Ends :
      (id note : String) (now : ℕ) (task : GenerationTask) (d : Db)
      → P d.tables
      → Ends (λ _. P) (λ _. Unit) (settle id note now task d)
  unfolding settle settle_open
  settle-Ends id note now task d h =
      Ends-if (is_settled (known_status task.refund_status)) _ _ d (λ _. returns h)
        λ _.
          count_of_task-then id refund _ d
            (Ends-if (ltb 0 (count_transactions id refund d.credit_transactions)) _ _ (tick d)
              (λ _. settle_existing-Ends id now (recorded task) (tick d) h)
              λ unpaid.
                first_transaction-then id consume _ (tick d)
                  (settle_paid-Ends _ id note now (recorded task) _ h (not_ltb_zero _ unpaid) refl)
                  tt)
            tt

  pub fail_task_and_refund-Ends :
      (id reason note : String) (now : ℕ) (d : Db)
      → P d.tables
      → Ends (λ _. P) P (fail_task_and_refund id reason note now d)
  unfolding fail_task_and_refund
  fail_task_and_refund-Ends id reason note now d h =
      Ends-if (str_eq id "") _ _ d (λ _. raises h)
        λ _. transaction-Ends _ d h (
          first_task-then id _ (tick d)
            (λ task _.
              Ends-bind (λ _. P) (settle id (or_text note reason) now task) _ (tick (tick d))
                (settle-Ends id (or_text note reason) now task (tick (tick d)) h)
                λ s d' h'.
                  updates_task-then id _ _ d' (returns (closed.updated id _ d'.tables h')) tt)
            tt)
