-- ===== src/Limits/Sweep.antt =====
-- The cleanup of internal/service/login_limiter.go changes no later answer.
use license_server_ai.Base.{
  ℕ, ◌≤◌, ◌≡◌, sym, ap, ◌∙◌, String, Bool, true, false, Option, arith, if◌then◌else◌, leb,
}
use license_server_ai.Limits.Login.{
  LoginAttempt, LoginLimiter, is_locked, attempt_locked, locked_at, record_failure,
  remaining_attempts, left, failures, or_new, is_stale, swept, is_over,
}
use license_server_ai.Limits.Login as Login

swept-locked :
    (now later reset : ℕ) (o : Option LoginAttempt)
    → now ≤ later
    → attempt_locked later (swept now reset o) ≡ attempt_locked later o
swept-locked now later reset o h = ground arith

swept-left :
    (now later max reset : ℕ) (o : Option LoginAttempt)
    → now ≤ later
    → left later max reset (swept now reset o) ≡ left later max reset o
swept-left now later max reset o h = ground arith

swept-failures :
    (now later reset : ℕ) (o : Option LoginAttempt)
    → now ≤ later
    → failures later reset (or_new (swept now reset o)) ≡ failures later reset (or_new o)
swept-failures now later reset o h = ground arith

abbrev answer : ℕ → ℕ → ℕ → Bool × ℕ
answer max lock n = if leb max n then (true, lock) else (false, 0)

record_failure-answer :
    (key : String) (now : ℕ) (ll : LoginLimiter)
    → (record_failure key now ll).0
      ≡ answer ll.max_attempts ll.lock_duration
          (failures now ll.reset_after (or_new (ll.attempts key)))
unfolding record_failure
record_failure-answer key now ll = ground arith

-- At every time from a cleanup on, for every login: whether it is locked and for how long, how many
-- attempts remain, and what the next failure answers, are what they are without the cleanup.
pub cleanup-seen :
    (key : String) (now later : ℕ) (ll : LoginLimiter)
    → now ≤ later
    → (is_locked key later (Login.cleanup now ll) ≡ is_locked key later ll)
      × (remaining_attempts key later (Login.cleanup now ll) ≡ remaining_attempts key later ll)
      × ((record_failure key later (Login.cleanup now ll)).0 ≡ (record_failure key later ll).0)
unfolding is_locked remaining_attempts Login.cleanup
cleanup-seen key now later ll h = (
  swept-locked now later ll.reset_after (ll.attempts key) h,
  swept-left now later ll.max_attempts ll.reset_after (ll.attempts key) h,
  record_failure-answer key later (Login.cleanup now ll)
      ∙ ap (answer ll.max_attempts ll.lock_duration)
          (swept-failures now later ll.reset_after (ll.attempts key) h)
      ∙ sym (record_failure-answer key later ll),
)
