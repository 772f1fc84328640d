-- ===== src/Credit/Frames.antt =====
-- Every operation of internal/service/credit.go that changes a balance or creates a task keeps a
-- closed property of the tables, whichever statements fail. The refunds are in `RefundFrames`.
use license_server_ai.Base.{
  String, ◌≡◌, refl, true, false, Option, none, some, str_eq, leb, not, List,
}
use license_server_ai.Base.Int.{ℤ, pos, eqb_ℤ, leb_ℤ, pos_part, ltb_ℤ}
use license_server_ai.Model.Credit.{UserCredit}
use license_server_ai.Model.Generation.{GenerationTask, GenerationStatus}
use license_server_ai.Database.Core.{
  Db, Tables, M, pure, raise, insufficient_balance, concurrent_limit, tick, ◌>>◌, transaction,
}
use license_server_ai.Database.Tables.{find_credit, count_tasks}
use license_server_ai.Database.Statements.{with_credit}
use license_server_ai.Database.Ends.{
  Ends, returns, raises, Ends-if, Ends-bind, look_credit-then, first_credit-then, save_credit-then,
  create_transaction-then, transaction-Ends, create_task-then, count_user_tasks-then,
}
use license_server_ai.Credit.Tasks.{
  ReserveTaskInput, reserve_and_create_task, check_limit, reserve_for, reserve_checked, or_text,
  or_rule, or_statuses,
}
use license_server_ai.Credit.Closed.{Closed}
use license_server_ai.Credit.Accounts.{
  ensure_found, ensure_user, new_credit, adjust_balance, reserve,
}

-- The user has room for one more task, or no limit.
abbrev pub HasRoom : String → UserCredit → List GenerationStatus → Tables → Type 0
HasRoom u row st t =
    ltb_ℤ (pos 0) row.concurrent_limit ≡ true
    → leb (pos_part row.concurrent_limit) (count_tasks u st t.generation_tasks) ≡ false

-- The check of the limit changes nothing, and goes on only where there is room.
pub check_limit-Ends :
    (R : Tables → Type 0) (u : String) (row : UserCredit) (st : List GenerationStatus) (d : Db)
    → R d.tables
    → Ends (λ _ t. R t × HasRoom u row st t) (λ _. Unit) (check_limit u row st d)
unfolding check_limit
check_limit-Ends R u row st d h =
    Ends-if (ltb_ℤ (pos 0) row.concurrent_limit) _ _ d
      (λ _.
        count_user_tasks-then u st _ d
          (Ends-if (leb (pos_part row.concurrent_limit) (count_tasks u st d.generation_tasks))
            (raise concurrent_limit) (pure tt) (tick d) (λ _. raises tt)
            (λ room. returns (h, λ _. room)))
          tt)
      (λ unlimited. returns (h, λ limited. cc))

-- A property that the first row of a user does not break.
abbrev pub AllowsNew : (Tables → Type 0) → Type 0
AllowsNew P =
    (u : String) (t : Tables)
    → P t
    → find_credit u t.user_credits ≡ none
    → P (with_credit (new_credit u) t)

module _ (P : Tables → Type 0) (new : AllowsNew P) where
  pub ensure_user-Ends : (u : String) (d : Db) → P d.tables → Ends (λ _. P) P (ensure_user u d)
  unfolding ensure_user
  ensure_user-Ends u d h =
      look_credit-then u (ensure_found u) d (ensured (find_credit u d.user_credits) refl) h
    where
      ensured :
          (o : Option UserCredit)
          → find_credit u d.user_credits ≡ o
          → Ends (λ _. P) P (ensure_found u o (tick d))
      ensured (some row) e = returns h
      ensured none e =
          save_credit-then (new_credit u) (λ _. pure (new_credit u)) (tick d)
            (returns (new u d.tables h e)) h

  -- An operation that makes sure of the row first, and then works in a transaction.
  pub ensured-Ends :
      {A : Type 0} {Q : A → Tables → Type 0} (u : String) (body : M A) (d : Db)
      → P d.tables
      → ((d' : Db) → P d'.tables → Ends Q (λ _. Unit) (body d'))
      → Ends Q P ((ensure_user u >> transaction body) d)
  ensured-Ends u body d h k =
      Ends-bind (λ _. P) (ensure_user u) (λ _. transaction body) d (ensure_user-Ends u d h)
        (λ _ d' h'. transaction-Ends body d' h' (k (tick d') h'))

module _ (P : Tables → Type 0) (closed : Closed P) where
  pub adjust_balance-Ends :
      (u : String) (amount : ℤ) (operator note : String) (d : Db)
      → P d.tables
      → Ends (λ _. P) P (adjust_balance u amount operator note d)
  unfolding adjust_balance
  adjust_balance-Ends u amount operator note d h =
      Ends-if (eqb_ℤ amount (pos 0)) _ _ d (λ _. raises h)
        λ _. ensured-Ends P closed.created u _ d h λ d' h'.
          first_credit-then u _ d'
            (λ row found.
              Ends-if _ _ _ (tick d') (λ _. raises tt)
                λ enough.
                  save_credit-then _ _ (tick d')
                    (create_transaction-then _ _ _
                      (returns
                        (closed.adjusted u amount operator note d'.tables row h' found enough))
                      tt)
                    tt)
            tt

  pub reserve-Ends :
      (u : String) (cost : ℤ) (task_id : String) (rule_id : ℤ) (d : Db)
      → P d.tables
      → Ends (λ _. P) P (reserve u cost task_id rule_id d)
  unfolding reserve
  reserve-Ends u cost task_id rule_id d h =
      Ends-if (leb_ℤ cost (pos 0)) _ _ d (λ _. raises h)
        λ positive.
          Ends-if (str_eq task_id "") _ _ d (λ _. raises h)
            λ _. ensured-Ends P closed.created u _ d h λ d' h'.
              first_credit-then u _ d'
                (λ row found.
                  Ends-if _ _ _ (tick d') (λ _. raises tt)
                    λ enough.
                      save_credit-then _ _ (tick d')
                        (create_transaction-then _ _ _
                          (returns (
                            closed.charged u cost task_id rule_id d'.tables row h' found positive
                              enough))
                          tt)
                        tt)
                tt

  reserve_for-Ends :
      (u : String) (cost : ℤ) (task : GenerationTask) (rule_id : ℤ) (st : List GenerationStatus)
      (d : Db)
      → leb_ℤ cost (pos 0) ≡ false
      → P d.tables
      → Ends (λ _. P) P (reserve_for u cost task rule_id st d)
  unfolding reserve_for
  reserve_for-Ends u cost task rule_id st d positive h =
      Ends-if (str_eq u "") _ _ d (λ _. raises h)
        λ _.
          Ends-if (not (str_eq (or_text task.user_id u) u)) _ _ d (λ _. raises h)
            λ _. ensured-Ends P closed.created u _ d h λ d' h'.
              first_credit-then u _ d'
                (λ row found.
                  Ends-bind
                    (λ _ t.
                      (P t × (find_credit u t.user_credits ≡ some row))
                      × HasRoom u row (or_statuses st) t)
                    (check_limit u row (or_statuses st)) _ (tick d')
                    (check_limit-Ends (λ t. P t × (find_credit u t.user_credits ≡ some row)) u row
                      (or_statuses st) (tick d') (h', found))
                    λ _ d'' have.
                      Ends-if (ltb_ℤ row.balance cost) (raise insufficient_balance) _ d''
                        (λ _. raises tt)
                        λ enough.
                          save_credit-then _ _ d''
                            (create_transaction-then _ _ _
                              (create_task-then _ _ _
                                (λ fresh. returns (
                                  closed.tasked _ _
                                    (closed.charged u cost task.id (or_rule rule_id task.rule_id)
                                      d''.tables row have.0.0 have.0.1 positive enough)
                                    fresh))
                                tt)
                              tt)
                            tt)
                tt

  reserve_checked-Ends :
      (input : ReserveTaskInput) (o : Option GenerationTask) (d : Db)
      → leb_ℤ input.cost (pos 0) ≡ false
      → P d.tables
      → Ends (λ _. P) P (reserve_checked input o d)
  unfolding reserve_checked
  reserve_checked-Ends input none d positive h = raises h
  reserve_checked-Ends input (some task) d positive h =
      Ends-if (str_eq task.id "") _ _ d (λ _. raises h)
        λ _.
          reserve_for-Ends (or_text input.user_id task.user_id) input.cost task input.rule_id
            input.limit_status d positive h

  pub reserve_and_create_task-Ends :
      (input : ReserveTaskInput) (d : Db)
      → P d.tables
      → Ends (λ _. P) P (reserve_and_create_task input d)
  unfolding reserve_and_create_task
  reserve_and_create_task-Ends input d h =
      Ends-if (leb_ℤ input.cost (pos 0)) _ _ d (λ _. raises h)
        λ positive. reserve_checked-Ends input input.task d positive h
