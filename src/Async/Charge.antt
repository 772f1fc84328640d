-- ===== src/Async/Charge.antt =====
-- The charge of a task while internal/service/async_runner.go tries to start it, and what becomes of
-- it when that fails.
use mathlib.Core.Path.{subst}
use license_server_ai.Base.{
  ℕ, String, ◌≡◌, refl, sym, ap, ◌∙◌, false, Option, some, List, [], ◌∷◌, arith, str_eq, Bool-cases,
  inl, inr,
}
use license_server_ai.Base.Int.{◌+ℤ◌, neg_ℤ, wrap64}
use license_server_ai.Model.Credit.{UserCredit, CreditTransaction, consume, refund}
use license_server_ai.Model.Generation.{GenerationTask, none_yet}
use license_server_ai.Database.Core.{
  Db, Tables, Result, Error, ok, err, pure, attempt, recover, ◌>>=◌, ◌>>◌,
}
use license_server_ai.Database.Statements.{first_task}
use license_server_ai.Database.Tables.{
  balance_of, find_credit, find_task, update_task, find_transaction, count_transactions,
}
use license_server_ai.Database.Ends.{Ends, returns, raises, Ends-bind, Ends-mono}
use license_server_ai.Database.Attempt.{attempt-Ends}
use license_server_ai.Database.Success.{Healthy}
use license_server_ai.Credit.Refunds.{Settlement, fail_task_and_refund}
use license_server_ai.Credit.Settlement.{fail_task_and_refund-FailedWith}
use license_server_ai.Credit.RefundSuccess.{fail_task_and_refund-Succeeds}
use license_server_ai.Async.Upstream.{Outside, ask}
use license_server_ai.Async.Failure.{mark_unrefunded, fail_and_refund}
use license_server_ai.Async.Keeps.{
  IsMild, FreeOfTasks, FreeOfCredentials, bind-Keeps, recover-Keeps, first_task-Keeps, pure-Keeps,
}

-- A call that is known to return meets its postcondition, and does not fail.
Ends-certain :
    {A : Type 0} {Q : A → Tables → Type 0} {E E' : Tables → Type 0} {r : Result A × Db}
    → Ends Q E r
    → (a : A) × (r.0 ≡ ok a)
    → Ends Q E' r
Ends-certain (returns q) h = returns q
Ends-certain (raises e) (a, h) = cc

-- The refund of a task that is stored.
abbrev Kept : GenerationTask → Option GenerationTask → Type 0
Kept x o = (y : GenerationTask) × (o ≡ some y) × (y.refund_status ≡ x.refund_status)

find_task-mild :
    (id other : String) (f : GenerationTask → GenerationTask) (xs : List GenerationTask)
    (x : GenerationTask)
    → IsMild f
    → find_task id xs ≡ some x
    → Kept x (find_task id (update_task other f xs))
unfolding find_task update_task
find_task-mild id other f [] x mild h = cc
find_task-mild id other f (y ∷ xs) x mild h = elim (Bool-cases (str_eq y.id id)) [
  | inl b ↦ elim (Bool-cases (str_eq y.id other)) [
    | inl c ↦ (f y, ground (arith, mild y), ground (arith, mild y))
    | inr c ↦ (y, ground arith, ground arith)
  ]
  | inr b ↦
      let (z, e, s) = find_task-mild id other f xs x mild (ground arith) in
      (z, ground (arith, mild y), s)
]

module _ (id : String) (accounts : Tables) where
  -- The accounts are those of the charge, and the task is stored and not settled.
  pub record Reserved (t : Tables) : Type 0 where
    pub credits : t.user_credits ≡ accounts.user_credits
    pub entries : t.credit_transactions ≡ accounts.credit_transactions
    pub task : GenerationTask
    pub stored : find_task id t.generation_tasks ≡ some task
    pub unsettled : task.refund_status ≡ none_yet

  pub Reserved-tasks : FreeOfTasks Reserved
  Reserved-tasks other f t mild h =
      let (y, found, same) = find_task-mild id other f t.generation_tasks h.task mild h.stored in
      record {
        credits = h.credits;
        entries = h.entries;
        task = y;
        stored = found;
        unsettled = same ∙ h.unsettled;
      }

  pub Reserved-credentials : FreeOfCredentials Reserved
  Reserved-credentials f t h = record {
    credits = h.credits;
    entries = h.entries;
    task = h.task;
    stored = h.stored;
    unsettled = h.unsettled;
  }

  module _ (w : Outside) (paid : CreditTransaction) (row : UserCredit) where
    -- The account has back what it was charged.
    abbrev pub PaidBack : Tables → Type 0
    PaidBack t =
        balance_of paid.user_id t.user_credits
        ≡ wrap64 (balance_of paid.user_id accounts.user_credits +ℤ wrap64 (neg_ℤ paid.amount))

    failed-PaidBack :
        (reason note : String) (now : ℕ) (d : Db)
        → str_eq id "" ≡ false
        → Healthy d
        → Reserved d.tables
        → find_transaction id consume accounts.credit_transactions ≡ some paid
        → count_transactions id refund accounts.credit_transactions ≡ 0
        → find_credit paid.user_id accounts.user_credits ≡ some row
        → Ends (λ _. PaidBack) (λ _. ⊥) (fail_task_and_refund id reason note now d)
    failed-PaidBack reason note now d named healthy h charged unpaid has_row =
        let entry : find_transaction id consume d.credit_transactions ≡ some paid =
          ap (λ xs. find_transaction id consume xs) h.entries ∙ charged in
        let none_before : count_transactions id refund d.credit_transactions ≡ 0 =
          ap (λ xs. count_transactions id refund xs) h.entries ∙ unpaid in
        Ends-mono _
          (λ s t f.
            let (_, amount, _, balance, _) =
              f.repaid.paid_back paid (rw h.unsettled refl) none_before entry in
            balance
            ∙ ap (λ x. wrap64 (balance_of paid.user_id d.user_credits +ℤ x)) amount
            ∙ ap (λ rs. wrap64 (balance_of paid.user_id rs +ℤ wrap64 (neg_ℤ paid.amount)))
                h.credits)
          (Ends-certain {E = λ t. t ≡ d.tables}
            (fail_task_and_refund-FailedWith id reason note now d h.task h.stored)
            (fail_task_and_refund-Succeeds id reason note now h.task d named healthy h.stored
              (λ other e. (row, ground (arith, h.credits, entry, has_row)))))

    marked-PaidBack :
        (reason note : String) (now : ℕ) (d : Db)
        → Ends (λ _. PaidBack) (λ _. ⊥) (fail_task_and_refund id reason note now d)
        → Ends
            (λ (r : Result Settlement) t. (s : Settlement) × (r ≡ ok s) × PaidBack t)
            PaidBack
            (attempt (fail_task_and_refund id reason note now) d)
    marked-PaidBack reason note now d h = attempt-Ends _ _ d (answered _ h)
      where
        answered :
            (r : Result Settlement × Db)
            → Ends (λ _. PaidBack) (λ _. ⊥) r
            → Ends
                (λ a t. (s : Settlement) × (ok a ≡ ok s) × PaidBack t)
                (λ t. (e : Error) → (s : Settlement) × (err e ≡ ok s) × PaidBack t)
                r
        answered r (returns {a} q) = returns (a, refl, q)
        answered r (raises e) = absurd e

    -- When no statement fails, a task that could not be started gets its charge back.
    pub fail_and_refund-PaidBack :
        (reason note : String) (d : Db)
        → str_eq id "" ≡ false
        → Healthy d
        → Reserved d.tables
        → find_transaction id consume accounts.credit_transactions ≡ some paid
        → count_transactions id refund accounts.credit_transactions ≡ 0
        → find_credit paid.user_id accounts.user_credits ≡ some row
        → Ends (λ _. PaidBack) PaidBack (fail_and_refund w id reason note d)
    unfolding fail_and_refund mark_unrefunded ask attempt ◌>>=◌
    fail_and_refund-PaidBack reason note d named healthy h charged unpaid has_row =
        Ends-bind _ (attempt (fail_task_and_refund id reason note (w.clock d.calls))) _ d
          (marked-PaidBack reason note _ d
            (failed-PaidBack reason note _ d named healthy h charged unpaid has_row))
          λ r d' (s, e, back).
            subst
              (λ x.
                Ends (λ _. PaidBack) PaidBack
                  ((do
                    mark_unrefunded id reason (w.clock d'.calls) x
                    recover (do first_task id; pure tt) tt)
                    d'))
              (sym e)
              ((bind-Keeps PaidBack (pure tt) _ (pure-Keeps PaidBack tt) λ _.
                  recover-Keeps PaidBack _ tt
                    (first_task-Keeps PaidBack id _ (λ _. pure-Keeps PaidBack tt))).kept
                d' back)
