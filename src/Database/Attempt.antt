-- ===== src/Database/Attempt.antt =====
-- Rules for calls whose error the caller looks at.
use license_server_ai.Base.{Bool, true, false, if◌then◌else◌}
use license_server_ai.Database.Core.{
  Db, Tables, M, Error, Result, ok, err, db_failure, ◌>>=◌, send, answer, tick, attempt, Statement,
}
use license_server_ai.Database.Statements.{read}
use license_server_ai.Database.Ends.{Ends, returns, raises}

module _ {A : Type 0} {E : Tables → Type 0} where
  pub attempt-Ends :
      (Q : Result A → Tables → Type 0) (m : M A) (d : Db)
      → Ends (λ a. Q (ok a)) (λ t. (e : Error) → Q (err e) t) (m d)
      → Ends Q E (attempt m d)
  unfolding attempt
  attempt-Ends Q m d h = go (m d) h
    where
      go :
          (r : Result A × Db)
          → Ends (λ a. Q (ok a)) (λ t. (e : Error) → Q (err e) t) r
          → Ends Q E (let (x, d') = r in (ok x, d'))
      go r (returns q) = returns q
      go r (raises {e} q) = returns (q e)

module _ {A B : Type 0} {Q : B → Tables → Type 0} {E : Tables → Type 0} where
  -- A statement fails and changes nothing, or it answers: the caller goes on in both cases.
  pub attempt-send :
      (s : Statement A) (f : Result A → M B) (d : Db)
      → ((e : Error) → Ends Q E (f (err e) (tick d)))
      → (let (x, d') = answer d (s d.tables) in Ends Q E (f x d'))
      → Ends Q E ((attempt (send s) >>= f) d)
  unfolding attempt send ◌>>=◌
  attempt-send s f d failed h = go (d.faults d.calls)
    where
      go :
          (b : Bool)
          → (let (x, d') = (if b then (err db_failure, tick d) else answer d (s d.tables)) in
              Ends Q E (f x d'))
      go true = failed db_failure
      go false = h

  pub attempt-read :
      (g : Tables → A) (f : Result A → M B) (d : Db)
      → ((e : Error) → Ends Q E (f (err e) (tick d)))
      → Ends Q E (f (ok (g d.tables)) (tick d))
      → Ends Q E ((attempt (read g) >>= f) d)
  unfolding read answer
  attempt-read g f d failed h = attempt-send (λ t. ok (g t, t)) f d failed h

module _ {B : Type 0} {Q : B → Tables → Type 0} {E : Tables → Type 0} where
  pub attempt-write :
      (w : Tables → Tables) (f : Result (Unit {0}) → M B) (d : Db)
      → ((e : Error) → Ends Q E (f (err e) (tick d)))
      → Ends Q E (f (ok tt) (record (tick d) { tables = w d.tables }))
      → Ends Q E ((attempt (send (λ t. ok (tt, w t))) >>= f) d)
  unfolding answer
  attempt-write w f d failed h = attempt-send (λ t. ok (tt, w t)) f d failed h

module _ {A : Type 0} {Q : A → Tables → Type 0} {E : Tables → Type 0} where
  -- A last statement, which answers `g` of the tables and changes them by `w`.
  pub act-Ends :
      (g : Tables → A) (w : Tables → Tables) (d : Db)
      → E d.tables
      → Q (g d.tables) (w d.tables)
      → Ends Q E (send (λ t. ok (g t, w t)) d)
  unfolding send answer
  act-Ends g w d e q = go (d.faults d.calls)
    where
      go :
          (b : Bool)
          → Ends Q E (
              if b
              then (err db_failure, tick d)
              else (ok (g d.tables), record (tick d) { tables = w d.tables }))
      go true = raises e
      go false = returns q
