-- ===== src/Limits/Login.antt =====
-- internal/service/login_limiter.go: failed logins are counted for an account, and for an address.
-- Times and durations are nanoseconds. The zero `time.Time` is `none`: it lies before every time, and
-- longer ago than every duration. `now` is the time that a call reads from the clock, and the mutex
-- makes each call one step.
use license_server_ai.Base.{
  ℕ, suc, ◌+◌, ◌-◌, String, Bool, true, false, ◌&&◌, Option, none, some, if◌then◌else◌, str_eq, ltb,
  leb,
}

pub record LoginAttempt : Type 0 where
  pub fail_count : ℕ
  pub last_attempt : Option ℕ
  pub locked_until : Option ℕ

pub record LoginLimiter : Type 0 where
  pub attempts : String → Option LoginAttempt
  pub max_attempts : ℕ
  pub lock_duration : ℕ
  pub reset_after : ℕ

-- `NewLoginLimiter`.
abbrev pub new_login_limiter : ℕ → ℕ → ℕ → LoginLimiter
new_login_limiter max lock reset = record {
  attempts = λ _. none;
  max_attempts = max;
  lock_duration = lock;
  reset_after = reset;
}

abbrev pub put :
    String → Option LoginAttempt → (String → Option LoginAttempt) → String → Option LoginAttempt
put key a m k = if str_eq key k then a else m k

-- `now.Sub(attempt.LastAttempt) > ll.resetAfter`.
abbrev pub is_stale : ℕ → ℕ → Option ℕ → Bool
is_stale now reset none = true
is_stale now reset (some last) = ltb (last + reset) now

abbrev pub locked_at : ℕ → Option ℕ → Bool × ℕ
locked_at now none = (false, 0)
locked_at now (some until) = if ltb now until then (true, until - now) else (false, 0)

abbrev pub attempt_locked : ℕ → Option LoginAttempt → Bool × ℕ
attempt_locked now none = (false, 0)
attempt_locked now (some a) = locked_at now a.locked_until

-- `IsLocked`: whether, and for how long.
unfoldable pub is_locked : String → ℕ → LoginLimiter → Bool × ℕ
is_locked key now ll = attempt_locked now (ll.attempts key)

abbrev pub or_new : Option LoginAttempt → LoginAttempt
or_new none = record { fail_count = 0; last_attempt = none; locked_until = none }
or_new (some a) = a

abbrev pub failures : ℕ → ℕ → LoginAttempt → ℕ
failures now reset a = suc (if is_stale now reset a.last_attempt then 0 else a.fail_count)

abbrev pub failed : ℕ → ℕ → ℕ → ℕ → LoginAttempt → LoginAttempt
failed now max lock reset a = record {
  fail_count = failures now reset a;
  last_attempt = some now;
  locked_until = if leb max (failures now reset a) then some (now + lock) else a.locked_until;
}

-- `RecordFailure`: whether the account is locked from now on, and for how long.
unfoldable pub record_failure : String → ℕ → LoginLimiter → (Bool × ℕ) × LoginLimiter
record_failure key now ll =
    let a = or_new (ll.attempts key) in
    let ll' = record ll {
      attempts =
          put key (some (failed now ll.max_attempts ll.lock_duration ll.reset_after a)) ll.attempts;
    } in
    if leb ll.max_attempts (failures now ll.reset_after a)
    then ((true, ll.lock_duration), ll')
    else ((false, 0), ll')

-- `RecordSuccess` of an account.
unfoldable pub record_success : String → LoginLimiter → LoginLimiter
record_success key ll = record ll { attempts = put key none ll.attempts }

abbrev one_less : Option LoginAttempt → Option LoginAttempt
one_less none = none
one_less (some a) =
    if leb a.fail_count 1 then none else some (record a { fail_count = a.fail_count - 1 })

-- `RecordSuccess` of an address; its other methods are those of an account.
unfoldable pub ip_record_success : String → LoginLimiter → LoginLimiter
ip_record_success ip ll = record ll { attempts = put ip (one_less (ll.attempts ip)) ll.attempts }

abbrev pub left : ℕ → ℕ → ℕ → Option LoginAttempt → ℕ
left now max reset none = max
left now max reset (some a) = if is_stale now reset a.last_attempt then max else max - a.fail_count

-- `GetRemainingAttempts`.
unfoldable pub remaining_attempts : String → ℕ → LoginLimiter → ℕ
remaining_attempts key now ll = left now ll.max_attempts ll.reset_after (ll.attempts key)

-- `now.After(attempt.LockedUntil)`.
abbrev pub is_over : ℕ → Option ℕ → Bool
is_over now none = true
is_over now (some until) = ltb until now

abbrev pub swept : ℕ → ℕ → Option LoginAttempt → Option LoginAttempt
swept now reset none = none
swept now reset (some a) =
    if is_over now a.locked_until && is_stale now reset a.last_attempt then none else some a

-- One round of `cleanup`.
unfoldable pub cleanup : ℕ → LoginLimiter → LoginLimiter
cleanup now ll = record ll { attempts = λ k. swept now ll.reset_after (ll.attempts k) }
