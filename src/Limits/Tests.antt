-- ===== src/Limits/Tests.antt =====
-- The limiters on concrete runs.
use license_server_ai.Base.{◌≤◌, ◌≡◌, refl, List, [], ◌∷◌, arith}
use license_server_ai.Base.Int.{pos}
use license_server_ai.Limits.Rate.{
  RateLimiter, new_rate_limiter, allow, cleanup, Event, request, clean, admitted,
}
use license_server_ai.Limits.Counts.{InOrder, count}
use license_server_ai.Limits.Window.{run-AtMost}
use license_server_ai.Base.{true, some}
use license_server_ai.Limits.Login.{
  LoginLimiter, new_login_limiter, is_locked, remaining_attempts, record_failure,
}
use license_server_ai.Limits.Login as Login
use license_server_ai.Limits.Lock.{fail_at, fail_at-seen}
use license_server_ai.Limits.Sweep.{cleanup-seen}
use license_server_ai.Limits.Cleanup.{cleanup-admitted}

-- Two requests in a window of ten: the third is refused, and the window moves on.
abbrev events : List Event
events =
    request "a" 1
    ∷ request "b" 2
    ∷ request "a" 3
    ∷ request "a" 4
    ∷ clean 11
    ∷ request "a" 12
    ∷ request "a" 12
    ∷ []

events-InOrder : InOrder 0 events
events-InOrder = (
  omega arith,
  (omega arith, (omega arith, (omega arith, (omega arith, (omega arith, (omega arith, tt)))))),
)

passed : admitted "a" (new_rate_limiter (pos 2) 10) events ≡ 1 ∷ 3 ∷ 12 ∷ []
unfolding admitted allow cleanup
passed = refl

run-AtMost_example : count 10 12 (admitted "a" (new_rate_limiter (pos 2) 10) events) ≤ 2
run-AtMost_example = run-AtMost "a" 2 10 0 events events-InOrder 12

abbrev used : RateLimiter
used = record { requests = λ k. 1 ∷ 3 ∷ []; limit = pos 2; window = 10 }

abbrev later : List Event
later = request "a" 12 ∷ request "a" 12 ∷ []

later-InOrder : InOrder 11 later
later-InOrder = (omega arith, (omega arith, tt))

cleanup-admitted_example : admitted "a" (cleanup 11 used) later ≡ admitted "a" used later
cleanup-admitted_example = cleanup-admitted "a" 11 later used later-InOrder

-- Three failures are the maximum, and lock for 15 from the last of them.
fail_at-seen_example :
    ((is_locked "ann" 20 (fail_at "ann" (1 ∷ 5 ∷ 9 ∷ []) (new_login_limiter 3 15 30))).0 ≡ true)
    × (remaining_attempts "ann" 20 (fail_at "ann" (1 ∷ 5 ∷ 9 ∷ []) (new_login_limiter 3 15 30)) ≡ 0)
fail_at-seen_example = fail_at-seen "ann" 3 15 30 1 20 (5 ∷ 9 ∷ []) (omega arith, (omega arith, tt))

abbrev known : LoginLimiter
known = record (new_login_limiter 3 15 30) {
  attempts = λ k. some (record { fail_count = 3; last_attempt = some 9; locked_until = some 24 });
}

cleanup-seen_example :
    (is_locked "ann" 45 (Login.cleanup 40 known) ≡ is_locked "ann" 45 known)
    × (remaining_attempts "ann" 45 (Login.cleanup 40 known) ≡ remaining_attempts "ann" 45 known)
    × ((record_failure "ann" 45 (Login.cleanup 40 known)).0 ≡ (record_failure "ann" 45 known).0)
cleanup-seen_example = cleanup-seen "ann" 40 45 known (omega arith)
