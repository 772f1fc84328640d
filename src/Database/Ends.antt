-- ===== src/Database/Ends.antt =====
-- Postconditions: what holds of the tables when a call has returned, and when it has failed; with
-- a rule for each way to build a call.
use mathlib.Core.Path.{subst}
use license_server_ai.Base.{
  ◌≡◌, refl, Bool, true, false, Option, none, some, ℕ, List, String, if◌then◌else◌,
}
use license_server_ai.Base.Int.{ℤ}
use license_server_ai.Model.Credit.{UserCredit, TransactionTyp, CreditTransaction}
use license_server_ai.Model.Generation.{GenerationStatus, GenerationTask}
use license_server_ai.Database.Tables.{
  find_credit, find_transaction, count_transactions, find_task, count_tasks,
}
use license_server_ai.Database.Statements.{
  first, with_credit, with_transaction, with_task, with_update, insert_task, first_credit,
  look_credit, save_credit, create_transaction, count_of_task, first_transaction, first_task,
  create_task, updates_task, count_user_tasks, with_limit, updates_limit, read,
}
use license_server_ai.Database.Core.{
  M, Db, db_failure, ◌>>=◌, tick, Tables, Result, ok, err, Error, Statement, answer, send, finish,
  transaction, recover, or_else,
}

-- `Q` holds of the result and the tables that a call returned, `E` of the tables that it failed on.
pub data Ends {A : Type 0} (Q : A → Tables → Type 0) (E : Tables → Type 0)
    : Result A × Db → Type 0 where
  returns : {a : A} {d : Db} → Q a d.tables → Ends Q E (ok a, d)
  raises : {e : Error} {d : Db} → E d.tables → Ends Q E (err e, d)

-- A property of the tables that holds either way holds afterwards.
pub Ends-tables :
    {A : Type 0} {P : Tables → Type 0} {r : Result A × Db} → Ends (λ _. P) P r → P r.1.tables
Ends-tables (returns h) = h
Ends-tables (raises h) = h

-- The postcondition at a call that is known to have returned.
pub Ends-ok :
    {A : Type 0} {Q : A → Tables → Type 0} {E : Tables → Type 0} {r : Result A × Db}
    → Ends Q E r
    → (a : A) → r.0 ≡ ok a
    → Q a r.1.tables
Ends-ok {Q} (returns {a = b} {d} h) a e = subst (λ x. Q x d.tables) (cc) h
Ends-ok (raises h) a e = cc

-- A weaker postcondition.
pub Ends-mono :
    {A : Type 0} {Q Q' : A → Tables → Type 0} {E : Tables → Type 0} (r : Result A × Db)
    → ((a : A) (t : Tables) → Q a t → Q' a t)
    → Ends Q E r
    → Ends Q' E r
Ends-mono r h (returns q) = returns (h _ _ q)
Ends-mono r h (raises e) = raises e

-- A call that never fails.
pub Ends-never :
    {A : Type 0} {Q : A → Tables → Type 0} {E : Tables → Type 0} {r : Result A × Db}
    → Ends Q (λ _. ⊥) r
    → Ends Q E r
Ends-never (returns q) = returns q
Ends-never (raises h) = absurd h

module _ {A : Type 0} {Q : A → Tables → Type 0} {E : Tables → Type 0} where
  pub Ends-if :
      (b : Bool) (m n : M A) (d : Db)
      → (b ≡ true → Ends Q E (m d))
      → (b ≡ false → Ends Q E (n d))
      → Ends Q E ((if b then m else n) d)
  Ends-if true m n d hm hn = hm refl
  Ends-if false m n d hm hn = hn refl

  pub recover-Ends :
      {E' : Tables → Type 0} (m : M A) (a : A) (d : Db)
      → Ends Q E (m d)
      → ((t : Tables) → E t → Q a t)
      → Ends Q E' (recover m a d)
  unfolding recover
  recover-Ends {E'} m a d h k = go (m d) h
    where
      go : (r : Result A × Db) → Ends Q E r → Ends Q E' (or_else a r)
      go r (returns q) = returns q
      go r (raises e) = returns (k _ e)

module _ {A B : Type 0} {Q : B → Tables → Type 0} {E : Tables → Type 0} where
  -- What follows a call runs on the result and the state that the call returned.
  pub Ends-bind :
      (Q' : A → Tables → Type 0) (m : M A) (f : A → M B) (d : Db)
      → Ends Q' E (m d)
      → ((a : A) (d' : Db) → Q' a d'.tables → Ends Q E (f a d'))
      → Ends Q E ((m >>= f) d)
  unfolding ◌>>=◌
  Ends-bind Q' m f d h k = go (m d) h
    where
      go :
          (r : Result A × Db)
          → Ends Q' E r
          → Ends Q E (elim r.0 [ ok a ↦ f a r.1 | err e ↦ (err e, r.1) ])
      go r (returns {a} {d = d'} q) = k a d' q
      go r (raises e) = raises e

  -- A statement fails and changes nothing, or it answers.
  pub send-answer :
      (s : Statement A) (f : A → M B) (d : Db)
      → E d.tables
      → Ends Q E (((λ d. answer d (s d.tables)) >>= f) d)
      → Ends Q E ((send s >>= f) d)
  unfolding send ◌>>=◌
  send-answer s f d e h = go (d.faults d.calls)
    where
      go :
          (b : Bool)
          → let r : Result A × Db =
              (if b then (err db_failure, tick d) else answer d (s d.tables)) in
            Ends Q E (elim r.0 [ ok a ↦ f a r.1 | err e ↦ (err e, r.1) ])
      go true = raises e
      go false = h

  -- A statement that answers `g` of the tables and changes them by `w`.
  pub act-then :
      (g : Tables → A) (w : Tables → Tables) (f : A → M B) (d : Db)
      → Ends Q E (f (g d.tables) (record (tick d) { tables = w d.tables }))
      → E d.tables
      → Ends Q E ((send (λ t. ok (g t, w t)) >>= f) d)
  unfolding answer ◌>>=◌
  act-then g w f d h e = send-answer (λ t. ok (g t, w t)) f d e h

  -- A read of a row that has to be there.
  pub first-then :
      (g : Tables → Option A) (f : A → M B) (d : Db)
      → ((a : A) → g d.tables ≡ some a → Ends Q E (f a (tick d)))
      → E d.tables
      → Ends Q E ((send (λ t. first t (g t)) >>= f) d)
  unfolding answer ◌>>=◌
  first-then g f d k e = send-answer (λ t. first t (g t)) f d e (found (g d.tables) k)
    where
      found :
          (o : Option A)
          → ((a : A) → o ≡ some a → Ends Q E (f a (tick d)))
          → Ends Q E (((λ d. answer d (first d.tables o)) >>= f) d)
      found none k = raises e
      found (some a) k = k a refl

-- One rule for each statement of `Statements`.
module _ {B : Type 0} {Q : B → Tables → Type 0} {E : Tables → Type 0} where
  pub first_credit-then :
      (u : String) (f : UserCredit → M B) (d : Db)
      → ((row : UserCredit) → find_credit u d.user_credits ≡ some row → Ends Q E (f row (tick d)))
      → E d.tables
      → Ends Q E ((first_credit u >>= f) d)
  unfolding first_credit
  first_credit-then u f d k e = first-then (λ t. find_credit u t.user_credits) f d k e

  pub look_credit-then :
      (u : String) (f : Option UserCredit → M B) (d : Db)
      → Ends Q E (f (find_credit u d.user_credits) (tick d))
      → E d.tables
      → Ends Q E ((look_credit u >>= f) d)
  unfolding look_credit
  look_credit-then u f d k e = act-then (λ t. find_credit u t.user_credits) (λ t. t) f d k e

  pub save_credit-then :
      (row : UserCredit) (f : Unit {0} → M B) (d : Db)
      → Ends Q E (f tt (record (tick d) { tables = with_credit row d.tables }))
      → E d.tables
      → Ends Q E ((save_credit row >>= f) d)
  unfolding save_credit
  save_credit-then row f d k e = act-then (λ _. tt) (with_credit row) f d k e

  pub create_transaction-then :
      (tx : CreditTransaction) (f : Unit {0} → M B) (d : Db)
      → Ends Q E (f tt (record (tick d) { tables = with_transaction tx d.tables }))
      → E d.tables
      → Ends Q E ((create_transaction tx >>= f) d)
  unfolding create_transaction
  create_transaction-then tx f d k e = act-then (λ _. tt) (with_transaction tx) f d k e

  pub count_of_task-then :
      (id : String) (k : TransactionTyp) (f : ℕ → M B) (d : Db)
      → Ends Q E (f (count_transactions id k d.credit_transactions) (tick d))
      → E d.tables
      → Ends Q E ((count_of_task id k >>= f) d)
  unfolding count_of_task
  count_of_task-then id k f d h e =
      act-then (λ t. count_transactions id k t.credit_transactions) (λ t. t) f d h e

  pub first_transaction-then :
      (id : String) (k : TransactionTyp) (f : Option CreditTransaction → M B) (d : Db)
      → Ends Q E (f (find_transaction id k d.credit_transactions) (tick d))
      → E d.tables
      → Ends Q E ((first_transaction id k >>= f) d)
  unfolding first_transaction
  first_transaction-then id k f d h e =
      act-then (λ t. find_transaction id k t.credit_transactions) (λ t. t) f d h e

  pub first_task-then :
      (id : String) (f : GenerationTask → M B) (d : Db)
      → ((task : GenerationTask)
          → find_task id d.generation_tasks ≡ some task
          → Ends Q E (f task (tick d)))
      → E d.tables
      → Ends Q E ((first_task id >>= f) d)
  unfolding first_task
  first_task-then id f d k e = first-then (λ t. find_task id t.generation_tasks) f d k e

  pub create_task-then :
      (task : GenerationTask) (f : Unit {0} → M B) (d : Db)
      → (find_task task.id d.generation_tasks ≡ none
          → Ends Q E (f tt (record (tick d) { tables = with_task task d.tables })))
      → E d.tables
      → Ends Q E ((create_task task >>= f) d)
  unfolding create_task answer ◌>>=◌
  create_task-then task f d k e =
      send-answer (λ t. insert_task task t (find_task task.id t.generation_tasks)) f d e
        (inserted (find_task task.id d.generation_tasks) k)
    where
      inserted :
          (o : Option GenerationTask)
          → (o ≡ none → Ends Q E (f tt (record (tick d) { tables = with_task task d.tables })))
          → Ends Q E (((λ d. answer d (insert_task task d.tables o)) >>= f) d)
      inserted none k = k refl
      inserted (some old) k = raises e

  pub updates_task-then :
      (id : String) (g : GenerationTask → GenerationTask) (f : Unit {0} → M B) (d : Db)
      → Ends Q E (f tt (record (tick d) { tables = with_update id g d.tables }))
      → E d.tables
      → Ends Q E ((updates_task id g >>= f) d)
  unfolding updates_task
  updates_task-then id g f d k e = act-then (λ _. tt) (with_update id g) f d k e

  pub count_user_tasks-then :
      (u : String) (st : List GenerationStatus) (f : ℕ → M B) (d : Db)
      → Ends Q E (f (count_tasks u st d.generation_tasks) (tick d))
      → E d.tables
      → Ends Q E ((count_user_tasks u st >>= f) d)
  unfolding count_user_tasks
  count_user_tasks-then u st f d k e =
      act-then (λ t. count_tasks u st t.generation_tasks) (λ t. t) f d k e

-- A last statement, with nothing behind it.
module _ {Q : Unit {0} → Tables → Type 0} {E : Tables → Type 0} where
  pub updates_limit-Ends :
      (u : String) (limit : ℤ) (d : Db)
      → Q tt (with_limit u limit d.tables)
      → E d.tables
      → Ends Q E (updates_limit u limit d)
  unfolding updates_limit send answer
  updates_limit-Ends u limit d q e = go (d.faults d.calls)
    where
      go :
          (b : Bool)
          → Ends Q E (
              if b
              then (err db_failure, tick d)
              else (ok tt, record (tick d) { tables = with_limit u limit d.tables }))
      go true = raises e
      go false = returns q

module _ {A B : Type 0} {Q : B → Tables → Type 0} {E : Tables → Type 0} where
  pub read-then :
      (g : Tables → A) (f : A → M B) (d : Db)
      → Ends Q E (f (g d.tables) (tick d))
      → E d.tables
      → Ends Q E ((read g >>= f) d)
  unfolding read
  read-then g f d k e = act-then g (λ t. t) f d k e

module _ {A : Type 0} {Q : A → Tables → Type 0} {E : Tables → Type 0} where
  finish-Ends :
      (before : Db) (r : Result A × Db)
      → E before.tables
      → Ends Q (λ _. Unit) r
      → Ends Q E (finish before r)
  unfolding finish
  finish-Ends before r e (raises h) = raises e
  finish-Ends before r e (returns {a} {d} h) = go (d.faults d.calls)
    where
      go :
          (b : Bool)
          → let r' : Result Unit × Db =
              (if b then (err db_failure, tick d) else answer d (ok (tt, d.tables))) in
            Ends Q E (elim r'.0 [
              | ok _ ↦ (ok a, r'.1)
              | err x ↦ (err x, record r'.1 { tables = before.tables })
            ])
      go true = raises e
      go false = returns h

  -- A transaction that fails, at whatever statement, leaves the tables that it found.
  pub transaction-Ends :
      (body : M A) (d : Db)
      → E d.tables
      → Ends Q (λ _. Unit) (body (tick d))
      → Ends Q E (transaction body d)
  unfolding transaction
  transaction-Ends body d e h =
      act-then (λ _. tt) (λ t. t) (λ _ d'. finish d' (body d')) d
        (finish-Ends (tick d) (body (tick d)) e h) e
