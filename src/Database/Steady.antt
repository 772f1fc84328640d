-- ===== src/Database/Steady.antt =====
-- Which statements fail is fixed from the outside: no call changes the plan of the faults.
use license_server_ai.Base.{◌≡◌, refl, ap, ◌∙◌, Bool, true, false, if◌then◌else◌}
use license_server_ai.Database.Core.{
  Db, Tables, M, Result, ok, err, Error, db_failure, pure, raise, ◌>>=◌, or_else, recover, attempt,
  tick, Statement, answer, send, control, finish, transaction,
}
use license_server_ai.Database.Ends.{Ends, returns, raises}
use license_server_ai.Database.Success.{Healthy}

pub record Steady {A : Type 0} (m : M A) : Type 0 where
  pub same : (d : Db) → (m d).1.faults ≡ d.faults

pub pure-Steady : {A : Type 0} (a : A) → Steady (pure a)
pure-Steady a = record { same = λ d. refl }

pub raise-Steady : (A : Type 0) (e : Error) → Steady {A = A} (raise e)
raise-Steady A e = record { same = λ d. refl }

pub bind-Steady :
    {A B : Type 0} (m : M A) (k : A → M B) → Steady m → ((a : A) → Steady (k a)) → Steady (m >>= k)
unfolding ◌>>=◌
bind-Steady {A} {B} m k hm hk = record { same = λ d. go d (m d).0 (m d).1 (hm.same d) }
  where
    go :
        (d : Db) (r : Result A) (d' : Db)
        → d'.faults ≡ d.faults
        → let x : Result B × Db = elim r [ ok a ↦ k a d' | err e ↦ (err e, d') ] in
          x.1.faults ≡ d.faults
    go d (ok a) d' h = (hk a).same d' ∙ h
    go d (err e) d' h = h

pub if-Steady :
    {A : Type 0} (b : Bool) (m n : M A) → Steady m → Steady n → Steady (if b then m else n)
if-Steady true m n hm hn = hm
if-Steady false m n hm hn = hn

pub recover-Steady : {A : Type 0} (m : M A) (a : A) → Steady m → Steady (recover m a)
unfolding recover or_else
recover-Steady {A} m a hm = record { same = λ d. go d (m d).0 (m d).1 (hm.same d) }
  where
    go :
        (d : Db) (r : Result A) (d' : Db)
        → d'.faults ≡ d.faults
        → (or_else a (r, d')).1.faults ≡ d.faults
    go d (ok x) d' h = h
    go d (err e) d' h = h

pub attempt-Steady : {A : Type 0} (m : M A) → Steady m → Steady (attempt m)
unfolding attempt
attempt-Steady m hm = record { same = λ d. hm.same d }

pub send-Steady : {A : Type 0} (s : Statement A) → Steady (send s)
unfolding send answer
send-Steady {A} s = record { same = λ d. go d (d.faults d.calls) (s d.tables) }
  where
    answered : (d : Db) (r : Result (A × Tables)) → (answer d r).1.faults ≡ d.faults
    answered d (ok (a, t)) = refl
    answered d (err e) = refl

    go :
        (d : Db) (b : Bool) (r : Result (A × Tables))
        → let x : Result A × Db = (if b then (err db_failure, tick d) else answer d r) in
          x.1.faults ≡ d.faults
    go d true r = refl
    go d false r = answered d r

pub transaction-Steady : {A : Type 0} (body : M A) → Steady body → Steady (transaction body)
unfolding transaction finish
transaction-Steady {A} body hb =
    bind-Steady (send control) (λ _ d. finish d (body d)) (send-Steady control)
      (λ _. record { same = λ d. finished d (body d).0 (body d).1 (hb.same d) })
  where
    committed :
        (before : Db) (a : A) (r : Result (Unit {0})) (d' : Db)
        → d'.faults ≡ before.faults
        → let x : Result A × Db = elim r [
          | ok _ ↦ (ok a, d')
          | err e ↦ (err e, record d' { tables = before.tables })
        ] in
          x.1.faults ≡ before.faults
    committed before a (ok _) d' h = h
    committed before a (err e) d' h = h

    finished :
        (before : Db) (r : Result A) (d : Db)
        → d.faults ≡ before.faults
        → (finish before (r, d)).1.faults ≡ before.faults
    finished before (ok a) d h =
        committed before a (send control d).0 (send control d).1 ((send-Steady control).same d ∙ h)
    finished before (err e) d h = h

-- What follows a call runs on a database with the same plan of faults.
pub Steady-then :
    {A B : Type 0} {Q' : A → Tables → Type 0} {Q : B → Tables → Type 0} {E : Tables → Type 0}
    (m : M A) (k : A → M B) (d : Db)
    → Steady m
    → Healthy d
    → Ends Q' E (m d)
    → ((a : A) (d' : Db) → Healthy d' → Q' a d'.tables → Ends Q E (k a d'))
    → Ends Q E ((m >>= k) d)
unfolding ◌>>=◌
Steady-then {A} {B} {Q'} {Q} {E} m k d steady healthy h each = go (m d) h (steady.same d)
  where
    go :
        (r : Result A × Db)
        → Ends Q' E r
        → r.1.faults ≡ d.faults
        → Ends Q E (elim r.0 [ ok a ↦ k a r.1 | err e ↦ (err e, r.1) ])
    go r (returns {a} {d = d'} q) same = each a d' (λ n. ap (λ f. f n) same ∙ healthy n) q
    go r (raises q) same = raises q

-- A weaker postcondition of a failure.
pub Ends-weaker :
    {A : Type 0} {Q : A → Tables → Type 0} {E E' : Tables → Type 0} {r : Result A × Db}
    → ((t : Tables) → E t → E' t)
    → Ends Q E r
    → Ends Q E' r
Ends-weaker f (returns q) = returns q
Ends-weaker f (raises e) = raises (f _ e)
