-- ===== src/Credit/Charges.antt =====
-- `ReserveAndCreateTask` of internal/service/credit.go: all of it happens, or nothing that a user
-- or an auditor can see.
use license_server_ai.Base.{
  ◌≤◌, String, ◌≡◌, refl, sym, ap, ◌∙◌, true, false, not, none, some, List, [], ◌∷◌, ◌++◌, arith,
  str_eq, eq_iff,
}
use license_server_ai.Base.Int.{
  ℤ, pos, pos_part, ◌-ℤ◌, neg_ℤ, ◌≤ℤ◌, ltb_ℤ, leb_ℤ, IsInt64, wrap64-eq_of_IsInt64,
}
use license_server_ai.Model.Credit.{UserCredit, CreditTransaction, consume}
use license_server_ai.Model.Generation.{GenerationStatus, GenerationTask}
use license_server_ai.Database.Core.{Db, Tables, raise, insufficient_balance, tick}
use license_server_ai.Database.Tables.{
  find_credit, save_row, of_task, find_credit-save_row, find_credit-user_id, balance_of,
  count_tasks, count_tasks-append,
}
use license_server_ai.Database.Statements.{with_credit}
use license_server_ai.Database.Ends.{
  Ends, returns, raises, Ends-if, Ends-bind, first_credit-then, save_credit-then,
  create_transaction-then, create_task-then,
}
use license_server_ai.Credit.Accounts.{Change, charge_row, consume_transaction, new_credit}
use license_server_ai.Credit.Tasks.{
  ReserveTaskInput, reserve_and_create_task, check_limit, reserve_for, reserve_checked, or_text,
  or_rule, or_statuses,
}
use license_server_ai.Credit.Frames.{ensured-Ends, HasRoom, check_limit-Ends}

-- Nothing changed but, it may be, that the row of a new user was created, with balance 0.
pub record SameAccounts (before t : Tables) : Type 0 where
  pub balances : (u : String) → balance_of u t.user_credits ≡ balance_of u before.user_credits
  pub entries : t.credit_transactions ≡ before.credit_transactions
  pub tasks : t.generation_tasks ≡ before.generation_tasks

SameAccounts-new :
    (before : Tables) (u : String) (t : Tables)
    → SameAccounts before t
    → find_credit u t.user_credits ≡ none
    → SameAccounts before (with_credit (new_credit u) t)
SameAccounts-new before u t h fresh = record {
  balances = λ v.
      ground
        (arith, h.balances v, find_credit-save_row v (new_credit u) t.user_credits, eq_iff u v);
  entries = h.entries;
  tasks = h.tasks;
}

-- The cost was taken from the balance of `u`, one entry says so, `task` was created, and the
-- user's limit still holds with it.
pub record Charged (u : String) (cost : ℤ) (task : GenerationTask) (st : List GenerationStatus)
    (before : Tables) (r : Change) (t : Tables) : Type 0 where
  pub balance : balance_of u t.user_credits ≡ balance_of u before.user_credits -ℤ cost
  pub account : find_credit u t.user_credits ≡ some r.0
  pub others :
      (v : String)
      → str_eq u v ≡ false
      → balance_of v t.user_credits ≡ balance_of v before.user_credits
  pub covered : pos 0 ≤ℤ balance_of u t.user_credits
  pub entry : t.credit_transactions ≡ before.credit_transactions ++ r.1 ∷ []
  pub amount : r.1.amount ≡ neg_ℤ cost
  pub charged_to : r.1.user_id ≡ u
  pub charged_for : of_task task.id consume r.1 ≡ true
  pub created : t.generation_tasks ≡ before.generation_tasks ++ task ∷ []
  pub limit :
      ltb_ℤ (pos 0) r.0.concurrent_limit ≡ true
      → count_tasks u st t.generation_tasks ≤ pos_part r.0.concurrent_limit

-- A covered charge of a balance in range does not wrap.
charge_parts :
    (b cost : ℤ)
    → IsInt64 b
    → leb_ℤ cost (pos 0) ≡ false
    → ltb_ℤ b cost ≡ false
    → IsInt64 (b -ℤ cost) × IsInt64 (neg_ℤ cost) × (pos 0 ≤ℤ b -ℤ cost)
unfolding ◌-ℤ◌ neg_ℤ
charge_parts b cost h positive covered = ground arith

module _ (u : String) (cost : ℤ) (task : GenerationTask) (rule_id : ℤ) (st : List GenerationStatus)
    (before : Tables) where
  -- What the writes of the transaction make of tables that still show the old accounts.
  charged_tables :
      (t : Tables) (row : UserCredit)
      → IsInt64 (balance_of u before.user_credits)
      → leb_ℤ cost (pos 0) ≡ false
      → ltb_ℤ row.balance cost ≡ false
      → str_eq task.user_id u ≡ true
      → SameAccounts before t
      → find_credit u t.user_credits ≡ some row
      → HasRoom u row st t
      → Charged u cost task st before
          (charge_row row cost, consume_transaction u cost task.id rule_id (charge_row row cost))
          (record t {
            user_credits = save_row (charge_row row cost) t.user_credits;
            credit_transactions =
                t.credit_transactions
                ++ consume_transaction u cost task.id rule_id (charge_row row cost) ∷ [];
            generation_tasks = t.generation_tasks ++ task ∷ [];
          })
  unfolding charge_row
  charged_tables t row range positive covered owned same found room =
      let b : balance_of u before.user_credits ≡ row.balance = ground (arith, same.balances u) in
      let key : row.user_id ≡ u = find_credit-user_id u t.user_credits row found in
      let parts = charge_parts row.balance cost (rw b at range) positive covered in
      let exact = wrap64-eq_of_IsInt64 (row.balance -ℤ cost) parts.0 in
      let bal : balance_of u (save_row (charge_row row cost) t.user_credits) ≡ row.balance -ℤ cost =
        ground (
          arith,
          find_credit-save_row u (charge_row row cost) t.user_credits,
          eq_iff row.user_id u,
        ) in
      record {
        account = ground (
          arith,
          find_credit-save_row u (charge_row row cost) t.user_credits,
          eq_iff row.user_id u,
        );
        balance = bal ∙ ap (λ x. x -ℤ cost) (sym b);
        others = λ v ne. ground (
          arith,
          find_credit-save_row v (charge_row row cost) t.user_credits,
          same.balances v,
          eq_iff row.user_id v,
          eq_iff u v,
        );
        covered = rw bal parts.2;
        entry =
            ap
              (λ (xs : List CreditTransaction).
                xs ++ consume_transaction u cost task.id rule_id (charge_row row cost) ∷ [])
              same.entries;
        amount = wrap64-eq_of_IsInt64 (neg_ℤ cost) parts.1;
        charged_to = refl;
        charged_for = ground (arith, eq_iff task.id task.id);
        created = ap (λ (xs : List GenerationTask). xs ++ task ∷ []) same.tasks;
        limit = λ limited.
            ground (arith, room limited, count_tasks-append u st t.generation_tasks task);
      }

-- The task as it is stored: `if in.Task.UserID == "" { in.Task.UserID = in.UserID }`.
abbrev pub owned_task : String → GenerationTask → GenerationTask
owned_task u task = record task { user_id = or_text task.user_id u }

module _ (d : Db) where
  reserve_for-Charged :
      (u : String) (cost : ℤ) (task : GenerationTask) (rule_id : ℤ) (st : List GenerationStatus)
      → IsInt64 (balance_of u d.user_credits)
      → leb_ℤ cost (pos 0) ≡ false
      → Ends
          (Charged u cost (owned_task u task) (or_statuses st) d.tables)
          (SameAccounts d.tables)
          (reserve_for u cost task rule_id st d)
  unfolding reserve_for
  reserve_for-Charged u cost task rule_id st range positive =
      let P : Tables → Type 0 = SameAccounts d.tables in
      let start : SameAccounts d.tables d.tables = record {
        balances = λ v. refl;
        entries = refl;
        tasks = refl;
      } in
      Ends-if (str_eq u "") _ _ d (λ _. raises start)
        λ _.
          Ends-if (not (str_eq (or_text task.user_id u) u)) _ _ d (λ _. raises start)
            λ owner. ensured-Ends P (SameAccounts-new d.tables) u _ d start λ d' h'.
              first_credit-then u _ d'
                (λ row found.
                  Ends-bind
                    (λ _ t.
                      (P t × (find_credit u t.user_credits ≡ some row))
                      × HasRoom u row (or_statuses st) t)
                    (check_limit u row (or_statuses st)) _ (tick d')
                    (check_limit-Ends (λ t. P t × (find_credit u t.user_credits ≡ some row)) u row
                      (or_statuses st) (tick d') (h', found))
                    λ _ d'' have.
                      Ends-if (ltb_ℤ row.balance cost) (raise insufficient_balance) _ d''
                        (λ _. raises tt)
                        λ enough.
                          save_credit-then _ _ d''
                            (create_transaction-then _ _ _
                              (create_task-then _ _ _
                                (λ fresh. returns (
                                  charged_tables u cost (owned_task u task)
                                    (or_rule rule_id task.rule_id) (or_statuses st) d.tables
                                    d''.tables row range positive enough (ground arith) have.0.0
                                    have.0.1 have.1))
                                tt)
                              tt)
                            tt)
                tt

  -- A call with a task charges the user exactly the cost, writes one entry of that amount, creates
  -- the task and keeps the concurrency limit; or it fails, at any of its checks or statements, and
  -- no balance, entry or task has changed.
  pub reserve_and_create_task-Charged :
      (input : ReserveTaskInput) (task : GenerationTask)
      → input.task ≡ some task
      → let u = or_text input.user_id task.user_id in
        IsInt64 (balance_of u d.user_credits)
        → Ends
            (Charged u input.cost (owned_task u task) (or_statuses input.limit_status) d.tables)
            (SameAccounts d.tables)
            (reserve_and_create_task input d)
  unfolding reserve_and_create_task reserve_checked
  reserve_and_create_task-Charged input task given range =
      let start : SameAccounts d.tables d.tables = record {
        balances = λ v. refl;
        entries = refl;
        tasks = refl;
      } in
      Ends-if (leb_ℤ input.cost (pos 0)) _ _ d (λ _. raises start)
        λ positive. simp given (
          Ends-if (str_eq task.id "") _ _ d (λ _. raises start)
            λ _.
              reserve_for-Charged _ input.cost task input.rule_id input.limit_status range positive)
