-- ===== src/Database/Success.antt =====
-- When statements of the database do not fail: a call succeeds, and the rules to prove it.
use mathlib.Core.Path.{subst}
use license_server_ai.Base.{ℕ, ◌≡◌, refl, sym, Bool, true, false, if◌then◌else◌}
use license_server_ai.Database.Core.{
  Db, Tables, M, Result, ok, err, ◌>>=◌, send, answer, Statement, control, finish, recover, or_else,
  transaction, tick,
}

-- No statement fails.
abbrev pub Healthy : Db → Type 0
Healthy d = (n : ℕ) → d.faults n ≡ false

-- The call returns a value, and `Q` holds of it and of the tables.
pub data Succeeds {A : Type 0} (Q : A → Tables → Type 0) : Result A × Db → Type 0 where
  succeeds : {a : A} {d : Db} → Healthy d → Q a d.tables → Succeeds Q (ok a, d)

pub Succeeds-ok :
    {A : Type 0} {Q : A → Tables → Type 0} {r : Result A × Db}
    → Succeeds Q r
    → (a : A) × (r.0 ≡ ok a)
Succeeds-ok (succeeds {a} h q) = (a, refl)

commits : (d : Db) → Healthy d → send control d ≡ (ok tt, tick d)
unfolding send answer
commits d healthy = rw (healthy d.calls) refl

pub Succeeds-result :
    {A : Type 0} {Q : A → Tables → Type 0} {r : Result A × Db}
    → Succeeds Q r
    → (a : A) × (r.0 ≡ ok a) × Healthy r.1 × Q a r.1.tables
Succeeds-result (succeeds {a} h q) = (a, refl, h, q)

pub Succeeds-mono :
    {A : Type 0} {Q Q' : A → Tables → Type 0} (r : Result A × Db)
    → ((a : A) (t : Tables) → Q a t → Q' a t)
    → Succeeds Q r
    → Succeeds Q' r
Succeeds-mono r f (succeeds h q) = succeeds h (f _ _ q)

module _ {A : Type 0} {Q : A → Tables → Type 0} where
  pub else-Succeeds :
      (b : Bool) (x y : M A) (d : Db)
      → b ≡ false
      → Succeeds Q (y d)
      → Succeeds Q ((if b then x else y) d)
  else-Succeeds b x y d h s = rw h s

  pub then-Succeeds :
      (b : Bool) (x y : M A) (d : Db)
      → b ≡ true
      → Succeeds Q (x d)
      → Succeeds Q ((if b then x else y) d)
  then-Succeeds b x y d h s = rw h s

  pub send-Succeeds :
      (s : Statement A) (d : Db) (a : A) (t : Tables)
      → Healthy d
      → s d.tables ≡ ok (a, t)
      → Q a t
      → Succeeds Q (send s d)
  unfolding send answer
  send-Succeeds s d a t healthy e q = rw (healthy d.calls) (rw e (succeeds healthy q))

  pub recover-Succeeds : (m : M A) (a : A) (d : Db) → Succeeds Q (m d) → Succeeds Q (recover m a d)
  unfolding recover or_else
  recover-Succeeds m a d h = go (m d) h
    where
      go : (r : Result A × Db) → Succeeds Q r → Succeeds Q (or_else a r)
      go r (succeeds healthy q) = succeeds healthy q

  finish-Succeeds : (before : Db) (r : Result A × Db) → Succeeds Q r → Succeeds Q (finish before r)
  unfolding finish
  finish-Succeeds before r (succeeds {a} {d} healthy q) =
      subst
        (λ x. Succeeds Q (elim x.0 [
          | ok _ ↦ (ok a, x.1)
          | err e ↦ (err e, record x.1 { tables = before.tables })
        ]))
        (sym (commits d healthy)) (succeeds healthy q)

module _ {A B : Type 0} {Q : B → Tables → Type 0} where
  pub bind-Succeeds :
      (P : A → Tables → Type 0) (m : M A) (k : A → M B) (d : Db)
      → Succeeds P (m d)
      → ((a : A) (d' : Db) → Healthy d' → P a d'.tables → Succeeds Q (k a d'))
      → Succeeds Q ((m >>= k) d)
  unfolding ◌>>=◌
  bind-Succeeds P m k d h each = go (m d) h
    where
      go :
          (r : Result A × Db)
          → Succeeds P r
          → Succeeds Q (elim r.0 [ ok a ↦ k a r.1 | err e ↦ (err e, r.1) ])
      go r (succeeds {a} {d = d'} healthy p) = each a d' healthy p

  -- A statement that answers, and what follows it.
  pub send-then-Succeeds :
      (s : Statement A) (k : A → M B) (d : Db) (a : A) (t : Tables)
      → Healthy d
      → s d.tables ≡ ok (a, t)
      → ((d' : Db) → Healthy d' → d'.tables ≡ t → Succeeds Q (k a d'))
      → Succeeds Q ((send s >>= k) d)
  send-then-Succeeds s k d a t healthy e each =
      bind-Succeeds (λ x u. (a ≡ x) × (u ≡ t)) (send s) k d
        (send-Succeeds s d a t healthy e (refl, refl))
        (λ x d' healthy' p. subst (λ y. Succeeds Q (k y d')) p.0 (each d' healthy' p.1))

module _ {A : Type 0} {Q : A → Tables → Type 0} where
  pub transaction-Succeeds :
      (body : M A) (d : Db)
      → Healthy d
      → ((d' : Db) → Healthy d' → d'.tables ≡ d.tables → Succeeds Q (body d'))
      → Succeeds Q (transaction body d)
  unfolding transaction
  transaction-Succeeds body d healthy each =
      send-then-Succeeds control _ d tt d.tables healthy refl
        (λ d' healthy' same. finish-Succeeds d' (body d') (each d' healthy' same))
