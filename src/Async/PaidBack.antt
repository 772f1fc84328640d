-- ===== src/Async/PaidBack.antt =====
-- `StartTask` of internal/service/async_runner.go, from the charge to its answer: who gets a task has
-- paid for it, and who gets an error has not.
use mathlib.Core.Path.{subst}
use license_server_ai.Base.{
  ℕ, String, Bool, ◌≡◌, refl, ap, ◌∙◌, not, false, ◌||◌, Option, none, some, List, [], ◌∷◌, ◌++◌,
  arith, str_eq,
}
use license_server_ai.Base.Int.{ℤ, ◌-ℤ◌, IsInt64}
use license_server_ai.Model.Credit.{CreditTransaction, consume, refund}
use license_server_ai.Model.Credential.{ProviderCredential}
use license_server_ai.Model.Generation.{GenerationTask, none_yet}
use license_server_ai.Database.Core.{Db, Tables, ◌>>=◌, ◌>>◌}
use license_server_ai.Database.Tables.{
  balance_of, find_credit, find_task, find_transaction, count_transactions,
}
use license_server_ai.Database.Ends.{Ends, raises, Ends-if}
use license_server_ai.Database.Steady.{Steady-then, Ends-weaker}
use license_server_ai.Database.Success.{Healthy}
use license_server_ai.Credit.Accounts.{Change}
use license_server_ai.Credit.Tasks.{reserve_and_create_task, or_text, or_statuses}
use license_server_ai.Credit.Charges.{
  Charged, SameAccounts, owned_task, reserve_and_create_task-Charged,
}
use license_server_ai.Credit.Steady.{reserve_and_create_task-Steady}
use license_server_ai.Async.Upstream.{Outside, StartInput, all_failed, ask}
use license_server_ai.Async.Start.{
  start_reserved, start_priced, start_task, new_task, attempts_for, fixed_credential,
}
use license_server_ai.Async.Attempts.{create_attempts-Keeps, fixed_credential-Keeps}
use license_server_ai.Async.Conclusion.{Paid, Unpaid, conclude-Paid}
use license_server_ai.Async.Fresh.{
  Fresh, find_task-append, find_transaction-append, no_refund-append,
}
use license_server_ai.Async.Charge.{Reserved, Reserved-tasks, Reserved-credentials}

or_left : (a b : Bool) → (a || b) ≡ false → a ≡ false
or_left a b h = ground arith

module _ (w : Outside) (input : StartInput) (cost rule_id : ℤ) (before : Tables)
    (range : IsInt64 (balance_of input.user_id before.user_credits)) (fits : IsInt64 cost) where
  -- The accounts and the tasks are still those of the beginning.
  abbrev Untouched : Tables → Type 0
  Untouched t =
      (t.user_credits ≡ before.user_credits)
      × (t.credit_transactions ≡ before.credit_transactions)
      × (t.generation_tasks ≡ before.generation_tasks)

  Charged-Reserved :
      (task : GenerationTask) (r : Change) (t t' : Tables)
      → task.refund_status ≡ none_yet
      → Fresh task.id before
      → Untouched t
      → Charged input.user_id cost task (or_statuses []) t r t'
      → Reserved task.id t' t'
  Charged-Reserved task r t t' open_still fresh (a, b, e) c = record {
    credits = refl;
    entries = refl;
    task = task;
    stored =
        ap (λ xs. find_task task.id xs)
          (c.created ∙ ap (λ (xs : List GenerationTask). xs ++ task ∷ []) e)
        ∙ find_task-append task before.generation_tasks fresh.no_task;
    unsettled = open_still;
  }

  start_reserved-Paid :
      (task : GenerationTask) (fixed : Option ProviderCredential) (r : Change) (t : Tables) (d : Db)
      → task.refund_status ≡ none_yet
      → Fresh task.id before
      → Untouched t
      → Healthy d
      → Charged input.user_id cost task (or_statuses []) t r d.tables
      → Ends
          (Paid w input before)
          (Unpaid w input before)
          (start_reserved w input rule_id cost fixed task.id d)
  unfolding start_reserved
  start_reserved-Paid task fixed r t d open_still fresh (a, b, e) healthy c =
      let entries : d.credit_transactions ≡ before.credit_transactions ++ r.1 ∷ [] =
        c.entry ∙ ap (λ (xs : List CreditTransaction). xs ++ r.1 ∷ []) b in
      let attempts =
        create_attempts-Keeps (Reserved task.id d.tables) (Reserved-tasks task.id d.tables)
          (Reserved-credentials task.id d.tables) w {E = Unpaid w input before} input task.id fixed
          (attempts_for input) [] all_failed in
      Steady-then _ _ d attempts.steady healthy
        (attempts.kept d (Charged-Reserved task r t d.tables open_still fresh (a, b, e) c))
        λ x d' healthy' h.
          conclude-Paid w input before task.id cost d.tables r.1 r.0 fresh.named c.charged_to
            c.amount range fits
            (c.balance ∙ ap (λ rs. balance_of input.user_id rs -ℤ cost) a, c.covered)
            (ap (λ xs. find_transaction task.id consume xs) entries
              ∙ find_transaction-append task.id r.1 before.credit_transactions c.charged_for
                  fresh.no_charge)
            (ap (λ xs. count_transactions task.id refund xs) entries
              ∙ no_refund-append task.id r.1 before.credit_transactions c.charged_for
                  fresh.no_refund)
            (ap (λ u. find_credit u d.user_credits) c.charged_to ∙ c.account) x d' healthy' h

  or_text_own : (v : String) → str_eq v "" ≡ false → or_text v v ≡ v
  or_text_own v h = rw h refl

  -- The charge of a task of the user.
  reserve-Charged :
      (d : Db) (task : GenerationTask)
      → str_eq input.user_id "" ≡ false
      → task.user_id ≡ input.user_id
      → IsInt64 (balance_of input.user_id d.user_credits)
      → Ends
          (Charged input.user_id cost (owned_task input.user_id task) (or_statuses []) d.tables)
          (SameAccounts d.tables)
          (reserve_and_create_task
            (record {
              user_id = input.user_id;
              cost = cost;
              task = some task;
              rule_id = rule_id;
              limit_status = [];
            })
            d)
  reserve-Charged d task given own here_range =
      let same : or_text input.user_id task.user_id ≡ input.user_id =
        rw own (or_text_own input.user_id given) in
      subst
        (λ u.
          Ends (Charged u cost (owned_task u task) (or_statuses []) d.tables)
            (SameAccounts d.tables)
            (reserve_and_create_task
              (record {
                user_id = input.user_id;
                cost = cost;
                task = some task;
                rule_id = rule_id;
                limit_status = [];
              })
              d))
        same (reserve_and_create_task-Charged d _ task refl (rw same here_range))

  reserved-Paid :
      (fixed : Option ProviderCredential) (id : String) (now : ℕ) (d : Db)
      → str_eq input.user_id "" ≡ false
      → Fresh id before
      → Untouched d.tables
      → Healthy d
      → Ends (Paid w input before) (Unpaid w input before) (
          (do
            reserve_and_create_task (record {
              user_id = input.user_id;
              cost = cost;
              task = some (new_task input rule_id cost id now);
              rule_id = rule_id;
              limit_status = [];
            })
            start_reserved w input rule_id cost fixed id)
            d)
  unfolding new_task
  reserved-Paid fixed id now d given fresh (a, b, e) healthy =
      Steady-then (reserve_and_create_task _) _ d (reserve_and_create_task-Steady _) healthy
        (Ends-weaker (λ t s. s.balances input.user_id ∙ ap (λ rs. balance_of input.user_id rs) a)
          (reserve-Charged d (new_task input rule_id cost id now) given refl (rw a range)))
        λ r d' healthy' c.
          start_reserved-Paid (owned_task input.user_id (new_task input rule_id cost id now)) fixed
            r d.tables d' refl fresh (a, b, e) healthy' c

module _ (w : Outside) (input : StartInput) (d : Db) (healthy : Healthy d)
    (range : IsInt64 (balance_of input.user_id d.user_credits))
    (fresh : (n : ℕ) → Fresh (w.fresh_id n) d.tables) where
  start_priced-Paid :
      (priced : Option (ℤ × ℤ))
      → str_eq input.user_id "" ≡ false
      → ((rule_id cost : ℤ) → priced ≡ some (rule_id, cost) → IsInt64 cost)
      → Ends (Paid w input d.tables) (Unpaid w input d.tables) (start_priced w input priced d)
  unfolding start_priced ask ◌>>=◌
  start_priced-Paid none given fits = raises refl
  start_priced-Paid (some (rule_id, cost)) given fits =
      let P : Tables → Type 0 =
        Untouched w input cost rule_id d.tables range (fits rule_id cost refl) in
      let fixed_held = fixed_credential-Keeps P (λ f t h. h) w input in
      Ends-if (not (w.has_adapter input.provider)) _ _ d (λ _. raises refl)
        λ _.
          Steady-then (fixed_credential w input) _ d fixed_held.steady healthy
            (Ends-weaker (λ t h. ap (λ rs. balance_of input.user_id rs) h.0)
              (fixed_held.kept d (refl, refl, refl)))
            λ fixed d' healthy' h.
              reserved-Paid w input cost rule_id d.tables range (fits rule_id cost refl) fixed
                (w.fresh_id d'.calls) (w.clock d'.calls) d' given (fresh d'.calls) h healthy'

  -- When no statement fails, StartTask either returns, and the user's balance, still not negative,
  -- is lower by exactly the cost; or it fails, wherever it does so and whatever the upstreams
  -- answer, and the balance is what it was. For a fresh id, and a balance and a cost that are
  -- 64-bit numbers.
  pub start_task-Paid :
      ((rule_id cost : ℤ) → input.priced ≡ some (rule_id, cost) → IsInt64 cost)
      → Ends (Paid w input d.tables) (Unpaid w input d.tables) (start_task w input d)
  unfolding start_task
  start_task-Paid fits =
      Ends-if (str_eq input.user_id "" || str_eq input.provider "" || str_eq input.body "") _ _ d
        (λ _. raises refl)
        λ given. start_priced-Paid input.priced (or_left _ _ (or_left _ _ given)) fits
