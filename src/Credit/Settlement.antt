-- ===== src/Credit/Settlement.antt =====
-- `FailTaskAndRefund` of internal/service/credit.go: what a failed task was charged
-- comes back, and the task is settled.
use mathlib.Core.Path.{subst}
use license_server_ai.Base.{
  ℕ, ◌<◌, String, ◌≡◌, refl, ap, Bool, true, false, not, Option, none, some, ◌⊎◌, arith,
  if◌then◌else◌, ltb, str_eq,
}
use license_server_ai.Base.Int.{pos, ◌+ℤ◌, neg_ℤ, eqb_ℤ, wrap64}
use license_server_ai.Model.Credit.{CreditTransaction, consume, refund}
use license_server_ai.Model.Generation.{GenerationTask, failed, refunded}
use license_server_ai.Database.Core.{Db, Tables, pure, tick}
use license_server_ai.Database.Tables.{
  balance_of, find_task, find_task-update_task, find_transaction, count_transactions,
}
use license_server_ai.Database.Statements.{with_update}
use license_server_ai.Database.Ends.{
  Ends, returns, raises, Ends-if, Ends-bind, count_of_task-then, first_transaction-then,
  first_task-then, updates_task-then, transaction-Ends, recover-Ends,
}
use license_server_ai.Credit.Tasks.{or_text}
use license_server_ai.Credit.Refunds.{
  Settlement, pay_back, known_status, is_settled, recorded, recorded_amount, settle_existing,
  settle_paid, settle_open, settle, failed_task, fail_task_and_refund,
}
use license_server_ai.Credit.Repayment.{Pays, Entered, pay_back-Pays}

module _ (id : String) (before : Tables) (open_before : Bool) where
  -- What the settlement `s` of the task `id` did to the accounts. A task that was charged, not yet
  -- settled and not yet refunded is paid back; in every other case no account changes.
  pub record Repaid (s : Settlement) (t : Tables) : Type 0 where
    pub settled : is_settled s.status ≡ true
    pub paid_back :
        (paid : CreditTransaction)
        → open_before ≡ true
        → count_transactions id refund before.credit_transactions ≡ 0
        → find_transaction id consume before.credit_transactions ≡ some paid
        → (s.status ≡ refunded)
          × (s.amount ≡ wrap64 (neg_ℤ paid.amount))
          × (count_transactions id refund t.credit_transactions ≡ 1)
          × (balance_of paid.user_id t.user_credits
              ≡ wrap64 (balance_of paid.user_id before.user_credits +ℤ s.amount))
          × Entered paid before.credit_transactions t.credit_transactions
    pub untouched :
        (open_before ≡ false)
          ⊎ (0 < count_transactions id refund before.credit_transactions)
          ⊎ (find_transaction id consume before.credit_transactions ≡ none)
        → (t.user_credits ≡ before.user_credits)
          × (t.credit_transactions ≡ before.credit_transactions)

abbrev Settles : String → Tables → Bool → Settlement → Tables → Type 0
Settles id before o s t = (t.generation_tasks ≡ before.generation_tasks) × Repaid id before o s t

module _ (id note : String) (now : ℕ) (d : Db) where
  existing-Repaid :
      (s : Settlement)
      → ltb 0 (count_transactions id refund d.credit_transactions) ≡ true
      → Ends (Settles id d.tables true) (λ _. Unit) (settle_existing id now s d)
  unfolding settle_existing recorded_amount
  existing-Repaid s has =
      Ends-bind (λ _ t. t ≡ d.tables) _ _ d
        (Ends-if (eqb_ℤ s.amount (pos 0)) (recorded_amount id s.amount) (pure s.amount) d
          (λ _.
            recover-Ends {E = λ t. t ≡ d.tables} _ _ d
              (first_transaction-then id refund _ d (returns refl) refl) (λ _ h. h))
          (λ _. returns refl))
        (λ _ d' same. returns (
          ap (λ (t : Tables). t.generation_tasks) same,
          record {
            settled = refl;
            paid_back = λ paid _ zero _. ground arith;
            untouched = λ _. (
              ap (λ (t : Tables). t.user_credits) same,
              ap (λ (t : Tables). t.credit_transactions) same,
            );
          },
        ))

  paid-Repaid :
      (s : Settlement) (o : Option CreditTransaction)
      → ltb 0 (count_transactions id refund d.credit_transactions) ≡ false
      → find_transaction id consume d.credit_transactions ≡ o
      → Ends (Settles id d.tables true) (λ _. Unit) (settle_paid note now s o (tick d))
  unfolding settle_paid
  paid-Repaid s none unpaid found =
      returns (
        refl,
        record { settled = refl; paid_back = λ paid _ _ f. cc; untouched = λ _. (refl, refl) },
      )
  paid-Repaid s (some paid) unpaid found =
      Ends-bind (λ _. Pays id paid d.tables) (pay_back paid note) _ (tick d)
        (pay_back-Pays id note (tick d) paid unpaid found)
        (λ _ d' p. returns (
          p.tasks,
          record {
            settled = refl;
            paid_back = λ paid' _ _ f.
                subst
                  (λ x.
                    (refunded ≡ refunded)
                    × (wrap64 (neg_ℤ paid.amount) ≡ wrap64 (neg_ℤ x.amount))
                    × (count_transactions id refund d'.credit_transactions ≡ 1)
                    × (balance_of x.user_id d'.user_credits
                        ≡ wrap64
                            (balance_of x.user_id d.user_credits +ℤ wrap64 (neg_ℤ paid.amount)))
                    × Entered x d.credit_transactions d'.credit_transactions)
                  (cc) (refl, refl, p.count, p.balance, p.entered);
            untouched = λ h. ground arith;
          },
        ))

settled-Repaid :
    (id : String) (t : Tables) (s : Settlement) → is_settled s.status ≡ true → Repaid id t false s t
settled-Repaid id t s h = record {
  settled = h;
  paid_back = λ paid o _ _. cc;
  untouched = λ _. (refl, refl);
}

abbrev pub is_open : GenerationTask → Bool
is_open task = not (is_settled (known_status task.refund_status))

settle-Repaid :
    (id note : String) (now : ℕ) (task : GenerationTask) (d : Db)
    → Ends (Settles id d.tables (is_open task)) (λ _. Unit) (settle id note now task d)
unfolding settle settle_open
settle-Repaid id note now task d = go (is_settled (known_status task.refund_status)) refl
  where
    go :
        (b : Bool)
        → is_settled (known_status task.refund_status) ≡ b
        → Ends
            (Settles id d.tables (not b))
            (λ _. Unit)
            ((if b then pure (recorded task) else settle_open id note now (recorded task)) d)
    go true h = returns (refl, settled-Repaid id d.tables (recorded task) h)
    go false h =
        count_of_task-then id refund _ d
          (Ends-if (ltb 0 (count_transactions id refund d.credit_transactions)) _ _ (tick d)
            (λ has. existing-Repaid id note now (tick d) (recorded task) has)
            λ unpaid.
              first_transaction-then id consume _ (tick d)
                (paid-Repaid id note now (tick d) (recorded task) _ unpaid refl) tt)
          tt

-- The task as the last UPDATE leaves it, over the accounts of the settlement.
pub record FailedWith (id reason : String) (now : ℕ) (before : Tables) (task : GenerationTask)
    (s : Settlement) (t : Tables) : Type 0 where
  pub repaid : Repaid id before (is_open task) s t
  pub stored :
      find_task id t.generation_tasks
      ≡ some (record task {
        status = failed;
        upstream_error = reason;
        refund_status = s.status;
        refund_amount = s.amount;
        refunded_at = s.at;
        next_poll_at = none;
        completed_at = some now;
      })

failed_lem :
    (id reason : String) (now : ℕ) (before t : Tables) (task task' : GenerationTask)
    (s : Settlement)
    → find_task id before.generation_tasks ≡ some task
    → find_task id before.generation_tasks ≡ some task'
    → t.generation_tasks ≡ before.generation_tasks
    → Repaid id before (is_open task') s t
    → FailedWith id reason now before task s (with_update id (failed_task reason now s) t)
failed_lem id reason now before t task task' s found found' same r =
    let e : task' ≡ task = cc in
    let r' : Repaid id before (is_open task) s t =
      subst (λ x. Repaid id before (is_open x) s t) e r in
    record {
      repaid = record { settled = r'.settled; paid_back = r'.paid_back; untouched = r'.untouched };
      stored =
          find_task-update_task id (failed_task reason now s) t.generation_tasks task (λ _. refl)
            (rw same found);
    }

-- A call for a stored task settles it: the task ends failed, with its refund status `refunded` or
-- `skipped`; if it was charged, not settled and not refunded, then exactly one refund of the whole
-- charge is in the ledger and in the balance; in every other case no balance and no entry changes.
-- Or the call fails, and then no table changes.
pub fail_task_and_refund-FailedWith :
    (id reason note : String) (now : ℕ) (d : Db) (task : GenerationTask)
    → find_task id d.generation_tasks ≡ some task
    → Ends
        (FailedWith id reason now d.tables task)
        (λ t. t ≡ d.tables)
        (fail_task_and_refund id reason note now d)
unfolding fail_task_and_refund
fail_task_and_refund-FailedWith id reason note now d task found =
    Ends-if (str_eq id "") _ _ d (λ _. raises refl)
      λ _. transaction-Ends _ d refl (
        first_task-then id _ (tick d)
          (λ task' found'.
            Ends-bind (Settles id d.tables (is_open task'))
              (settle id (or_text note reason) now task') _ (tick (tick d))
              (settle-Repaid id (or_text note reason) now task' (tick (tick d)))
              λ s d' r.
                updates_task-then id _ _ d'
                  (returns
                    (failed_lem id reason now d.tables d'.tables task task' s found found' r.0 r.1))
                  tt)
          tt)
