-- ===== src/Credit/RefundSuccess.antt =====
-- `FailTaskAndRefund` of internal/service/credit.go must succeed when no statement fails.
use mathlib.Core.Path.{subst}
use license_server_ai.Base.{
  ℕ, ◌≡◌, refl, sym, ap, ◌∙◌, String, false, Option, none, some, str_eq, ltb, if◌then◌else◌,
  Bool-cases, inl, inr,
}
use license_server_ai.Base.Int.{ℤ, pos, eqb_ℤ}
use license_server_ai.Model.Credit.{UserCredit, CreditTransaction, consume, refund}
use license_server_ai.Model.Generation.{GenerationTask}
use license_server_ai.Database.Core.{Db, Tables, M, Result, ok, pure, recover, or_else}
use license_server_ai.Database.Tables.{find_credit, find_task, find_transaction, count_transactions}
use license_server_ai.Database.Statements.{
  first_credit, save_credit, create_transaction, first_task, first_transaction, count_of_task,
  updates_task, with_update,
}
use license_server_ai.Database.Success.{
  Healthy, Succeeds, succeeds, Succeeds-ok, else-Succeeds, then-Succeeds, send-then-Succeeds,
  bind-Succeeds, transaction-Succeeds,
}
use license_server_ai.Credit.Tasks.{or_text}
use license_server_ai.Credit.Refunds.{
  pay_back, Settlement, is_settled, known_status, recorded, recorded_amount, settle_existing,
  settle_paid, settle_open, settle, fail_body, fail_task_and_refund, failed_task,
}

-- The account that a charge of the task names has a row.
abbrev pub Payable : String → Tables → Type 0
Payable id t =
    (paid : CreditTransaction)
    → find_transaction id consume t.credit_transactions ≡ some paid
    → (row : UserCredit) × (find_credit paid.user_id t.user_credits ≡ some row)

recover-Succeeds :
    (m : M ℤ) (a : ℤ) (d : Db)
    → Succeeds (λ _ _. Unit) (m d)
    → Succeeds (λ _ _. Unit) (recover m a d)
unfolding recover
recover-Succeeds m a d h = go (m d) h
  where
    go : (r : Result ℤ × Db) → Succeeds (λ _ _. Unit) r → Succeeds (λ _ _. Unit) (or_else a r)
    go r (succeeds healthy q) = succeeds healthy q

recorded_amount-Succeeds :
    (id : String) (amount : ℤ) (d : Db)
    → Healthy d
    → Succeeds (λ _ _. Unit) (recorded_amount id amount d)
unfolding recorded_amount first_transaction
recorded_amount-Succeeds id amount d healthy = recover-Succeeds _ amount d (
    send-then-Succeeds _ _ d (find_transaction id refund d.credit_transactions) d.tables healthy
      refl (λ d' healthy' same. succeeds healthy' tt))

settle_existing-Succeeds :
    (id : String) (now : ℕ) (s : Settlement) (d : Db)
    → Healthy d
    → Succeeds (λ _ _. Unit) (settle_existing id now s d)
unfolding settle_existing
settle_existing-Succeeds id now s d healthy =
    bind-Succeeds (λ _ _. Unit)
      (if eqb_ℤ s.amount (pos 0) then recorded_amount id s.amount else pure s.amount) _ d
      (elim (Bool-cases (eqb_ℤ s.amount (pos 0))) [
        | inl zero_amount ↦
            then-Succeeds _ (recorded_amount id s.amount) (pure s.amount) d zero_amount
              (recorded_amount-Succeeds id s.amount d healthy)
        | inr some_amount ↦
            else-Succeeds _ (recorded_amount id s.amount) (pure s.amount) d some_amount
              (succeeds healthy tt)
      ])
      (λ _ d' healthy' _. succeeds healthy' tt)

pay_back-Succeeds :
    (paid : CreditTransaction) (note : String) (row : UserCredit) (d : Db)
    → Healthy d
    → find_credit paid.user_id d.user_credits ≡ some row
    → Succeeds (λ _ _. Unit) (pay_back paid note d)
unfolding pay_back first_credit save_credit create_transaction
pay_back-Succeeds paid note row d healthy found =
    send-then-Succeeds _ _ d row d.tables healthy (rw found refl) λ d1 h1 e1.
      send-then-Succeeds _ _ d1 tt _ h1 refl
        λ d2 h2 e2. send-then-Succeeds _ _ d2 tt _ h2 refl λ d3 h3 e3. succeeds h3 tt

settle_paid-Succeeds :
    (id note : String) (now : ℕ) (s : Settlement) (found : Option CreditTransaction) (d : Db)
    → Healthy d
    → find_transaction id consume d.credit_transactions ≡ found
    → Payable id d.tables
    → Succeeds (λ _ _. Unit) (settle_paid note now s found d)
unfolding settle_paid
settle_paid-Succeeds id note now s none d healthy e payable = succeeds healthy tt
settle_paid-Succeeds id note now s (some paid) d healthy e payable =
    let (row, found) = payable paid e in
    bind-Succeeds (λ _ _. Unit) (pay_back paid note) _ d
      (pay_back-Succeeds paid note row d healthy found) (λ _ d' healthy' _. succeeds healthy' tt)

settle_open-Succeeds :
    (id note : String) (now : ℕ) (s : Settlement) (d : Db)
    → Healthy d
    → Payable id d.tables
    → Succeeds (λ _ _. Unit) (settle_open id note now s d)
unfolding settle_open count_of_task first_transaction
settle_open-Succeeds id note now s d healthy payable =
    send-then-Succeeds _ _ d (count_transactions id refund d.credit_transactions) d.tables healthy
      refl
      λ d1 h1 e1. elim (Bool-cases (ltb 0 (count_transactions id refund d.credit_transactions))) [
        | inl has ↦
            then-Succeeds _ (settle_existing id now s) _ d1 has
              (settle_existing-Succeeds id now s d1 h1)
        | inr has_not ↦ else-Succeeds _ (settle_existing id now s) _ d1 has_not (
            send-then-Succeeds _ (settle_paid note now s) d1
              (find_transaction id consume d1.credit_transactions) d1.tables h1 refl
              (λ d2 h2 e2.
                settle_paid-Succeeds id note now s _ d2 h2
                  (ap (λ t. find_transaction id consume t.credit_transactions) e2)
                  (subst (Payable id) (sym (e2 ∙ e1)) payable)))
      ]

settle-Succeeds :
    (id note : String) (now : ℕ) (task : GenerationTask) (d : Db)
    → Healthy d
    → Payable id d.tables
    → Succeeds (λ _ _. Unit) (settle id note now task d)
unfolding settle
settle-Succeeds id note now task d healthy payable =
    elim (Bool-cases (is_settled (known_status task.refund_status))) [
      | inl done ↦ then-Succeeds _ (pure (recorded task)) _ d done (succeeds healthy tt)
      | inr open_still ↦
          else-Succeeds _ (pure (recorded task)) _ d open_still
            (settle_open-Succeeds id note now (recorded task) d healthy payable)
    ]

-- `FailTaskAndRefund` succeeds for a stored task when no statement fails and, if the ledger has a
-- charge of the task, the account that it names has a row.
pub fail_task_and_refund-Succeeds :
    (id reason note : String) (now : ℕ) (task : GenerationTask) (d : Db)
    → str_eq id "" ≡ false
    → Healthy d
    → find_task id d.generation_tasks ≡ some task
    → Payable id d.tables
    → (s : Settlement) × ((fail_task_and_refund id reason note now d).0 ≡ ok s)
unfolding fail_task_and_refund fail_body first_task updates_task
fail_task_and_refund-Succeeds id reason note now task d named healthy found payable =
    Succeeds-ok {Q = λ _ _. Unit} (
      else-Succeeds _ _ _ d named (
        transaction-Succeeds _ d healthy λ d1 h1 e1.
          send-then-Succeeds _ _ d1 task d1.tables h1
            (rw (ap (λ t. find_task id t.generation_tasks) e1 ∙ found) refl)
            λ d2 h2 e2.
              bind-Succeeds (λ _ _. Unit) (settle id (or_text note reason) now task) _ d2
                (settle-Succeeds id (or_text note reason) now task d2 h2
                  (subst (Payable id) (sym (e2 ∙ e1)) payable))
                λ s d3 h3 _.
                  send-then-Succeeds _ _ d3 tt (with_update id (failed_task reason now s) d3.tables)
                    h3 refl (λ d4 h4 e4. succeeds h4 tt)))
