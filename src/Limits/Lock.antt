-- ===== src/Limits/Lock.antt =====
-- What the login limiter of internal/service/login_limiter.go counts, and when it locks.
use license_server_ai.Base.{
  ℕ, suc, ◌+◌, ◌-◌, ◌≤◌, ◌≡◌, refl, ap, ◌∙◌, String, ◌&&◌, Option, none, some, List, [], ◌∷◌, arith,
  if◌then◌else◌, eq_iff, ltb, leb, length,
}
use license_server_ai.Limits.Login.{
  LoginAttempt, LoginLimiter, new_login_limiter, is_locked, attempt_locked, record_failure,
  remaining_attempts, left, failed, or_new, put,
}

-- The failures of a login at some times, one after another.
unfoldable pub fail_at : String → List ℕ → LoginLimiter → LoginLimiter
fail_at key [] ll = ll
fail_at key (t ∷ ts) ll = fail_at key ts (record_failure key t ll).1

-- Each failure comes before the count of the one before it is dropped.
abbrev pub Close : ℕ → ℕ → List ℕ → Type 0
Close reset t [] = Unit
Close reset t (u ∷ us) = (u ≤ t + reset) × Close reset u us

abbrev pub last_of : ℕ → List ℕ → ℕ
last_of t [] = t
last_of t (u ∷ us) = last_of u us

-- The record after `n` failures, the last of them at `t`.
abbrev counted : ℕ → ℕ → ℕ → ℕ → LoginAttempt
counted max lock n t = record {
  fail_count = n;
  last_attempt = some t;
  locked_until = if leb max n then some (t + lock) else none;
}

failed-counted :
    (max lock reset n t u : ℕ)
    → u ≤ t + reset
    → failed u max lock reset (counted max lock n t) ≡ counted max lock (suc n) u
failed-counted max lock reset n t u h = ground arith

failed-first : (max lock reset u : ℕ) → failed u max lock reset (or_new none) ≡ counted max lock 1 u
failed-first max lock reset u = ground arith

locked-counted :
    (max lock n t now : ℕ)
    → (attempt_locked now (some (counted max lock n t))).0 ≡ (leb max n && ltb now (t + lock))
locked-counted max lock n t now = ground arith

module _ (key : String) where
  attempts-record_failure :
      (now : ℕ) (ll : LoginLimiter)
      → (record_failure key now ll).1 ≡ record ll {
        attempts =
            put key
              (some (
                failed now ll.max_attempts ll.lock_duration ll.reset_after
                  (or_new (ll.attempts key))))
              ll.attempts;
      }
  unfolding record_failure
  attempts-record_failure now ll = ground arith

  abbrev limiter : ℕ → ℕ → ℕ → (String → Option LoginAttempt) → LoginLimiter
  limiter max lock reset m = record {
    attempts = m;
    max_attempts = max;
    lock_duration = lock;
    reset_after = reset;
  }

  -- The limiter after failures at the times, from one that has counted `n` up to `t`.
  abbrev Counted : ℕ → ℕ → ℕ → ℕ → ℕ → LoginLimiter → Type 0
  Counted max lock reset n t ll =
      (m : String → Option LoginAttempt) × (ll ≡ limiter max lock reset m)
      × (m key ≡ some (counted max lock n t))

  fail_at-Counted :
      (max lock reset n t : ℕ) (ts : List ℕ) (m : String → Option LoginAttempt)
      → m key ≡ some (counted max lock n t)
      → Close reset t ts
      → Counted max lock reset
          (n + length ts)
          (last_of t ts)
          (fail_at key ts (limiter max lock reset m))
  unfolding fail_at
  fail_at-Counted max lock reset n t [] m h c =
      (m, refl, h ∙ ap (λ i. some (counted max lock i t)) (omega arith))
  fail_at-Counted max lock reset n t (u ∷ ts) m h c =
      let a : LoginAttempt = failed u max lock reset (or_new (m key)) in
      let here : a ≡ counted max lock (suc n) u =
        ap (λ o. failed u max lock reset (or_new o)) h ∙ failed-counted max lock reset n t u c.0 in
      let stored : put key (some a) m key ≡ some (counted max lock (suc n) u) =
        ap (λ b. if b then some a else m key) ((eq_iff key key).1 refl) ∙ ap some here in
      let (m', same, found) =
        fail_at-Counted max lock reset (suc n) u ts (put key (some a) m) stored c.1 in
      (
        m',
        ap (fail_at key ts) (attempts-record_failure u (limiter max lock reset m)) ∙ same,
        found ∙ ap (λ i. some (counted max lock i (last_of u ts))) (omega arith),
      )

  -- The first failure of a login that the limiter does not know.
  fail_at-first :
      (max lock reset t : ℕ) (ts : List ℕ)
      → Close reset t ts
      → Counted max lock reset
          (1 + length ts)
          (last_of t ts)
          (fail_at key (t ∷ ts) (new_login_limiter max lock reset))
  unfolding fail_at
  fail_at-first max lock reset t ts c =
      let a : LoginAttempt = failed t max lock reset (or_new none) in
      let stored : put key (some a) (λ _. none) key ≡ some (counted max lock 1 t) =
        ap (λ b. if b then some a else none) ((eq_iff key key).1 refl)
        ∙ ap some (failed-first max lock reset t) in
      let (m', same, found) =
        fail_at-Counted max lock reset 1 t ts (put key (some a) (λ _. none)) stored c in
      (
        m',
        ap (fail_at key ts) (attempts-record_failure t (new_login_limiter max lock reset)) ∙ same,
        found,
      )

  -- What a caller sees of a limiter that has counted `n` failures up to `t`.
  Counted-seen :
      (max lock reset n t now : ℕ) (ll : LoginLimiter)
      → Counted max lock reset n t ll
      → ((is_locked key now ll).0 ≡ (leb max n && ltb now (t + lock)))
        × (remaining_attempts key now ll ≡ (if ltb (t + reset) now then max else max - n))
  unfolding is_locked remaining_attempts
  Counted-seen max lock reset n t now ll (m, same, found) = (
    ap (λ l. (is_locked key now l).0) same
        ∙ ap (λ o. (attempt_locked now o).0) found
        ∙ locked-counted max lock n t now,
    ap (remaining_attempts key now) same ∙ ap (left now max reset) found,
  )

  -- After failures of an unknown login that follow each other before the count is dropped: it is locked
  -- exactly if they are at least the maximum, from the last of them for the time of a lock; and the
  -- attempts that remain are the maximum less the failures, or the maximum once the count is dropped.
  pub fail_at-seen :
      (max lock reset t now : ℕ) (ts : List ℕ)
      → Close reset t ts
      → let ll = fail_at key (t ∷ ts) (new_login_limiter max lock reset) in
        let last = last_of t ts in
        ((is_locked key now ll).0 ≡ (leb max (1 + length ts) && ltb now (last + lock)))
        × (remaining_attempts key now ll
            ≡ (if ltb (last + reset) now then max else max - (1 + length ts)))
  fail_at-seen max lock reset t now ts c =
      Counted-seen max lock reset (1 + length ts) (last_of t ts) now _
        (fail_at-first max lock reset t ts c)
