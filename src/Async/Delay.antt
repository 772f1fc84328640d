-- ===== src/Async/Delay.antt =====
-- `scheduleNextPoll` of internal/service/async_runner.go: when a task is polled next.
use license_server_ai.Base.{ℕ, ◌+◌, ◌*◌, ◌/◌, ◌≤◌, ◌<◌, ◌≡◌, some, true}
use license_server_ai.Base.Int.{ℤ, pos, leb_ℤ}
use license_server_ai.Model.Generation.{GenerationTask}
use license_server_ai.Database.Ends.{Ends}
use license_server_ai.Async.Failure.{second}

-- How long is waited for a delay, in nanoseconds: as long as it says, but one second for a delay that
-- is not positive, and five seconds at most.
pub data Waits : ℤ → ℕ → Type 0 where
  not_positive : (delay : ℤ) → leb_ℤ delay (pos 0) ≡ true → Waits delay (1 * second)
  as_asked : (n : ℕ) → 0 < n → n ≤ 5 * second → Waits (pos n) n
  capped : (n : ℕ) → 5 * second < n → Waits (pos n) (5 * second)

-- The task is as it was, but that it is polled again after the wait; its interval is the wait in
-- whole seconds, rounded down.
pub record Scheduled (now : ℕ) (delay : ℤ) (before after : GenerationTask) : Type 0 where
  pub wait : ℕ
  pub waits : Waits delay wait
  pub next : after.next_poll_at ≡ some (now + wait)
  pub interval : after.poll_interval ≡ wait / second
  pub status : after.status ≡ before.status
  pub cost : after.cost ≡ before.cost
  pub refund : after.refund_status ≡ before.refund_status
