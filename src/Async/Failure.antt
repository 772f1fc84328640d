-- ===== src/Async/Failure.antt =====
-- internal/service/async_runner.go: a task that failed, and the time of the next poll.
use license_server_ai.Base.{
  ℕ, ◌+◌, ◌*◌, ◌/◌, String, Bool, none, some, if◌then◌else◌, ltb, str_eq, ◌==◌,
}
use license_server_ai.Base.Int.{ℤ, pos, negsuc}
use license_server_ai.Model.Generation.{GenerationTask, failed, refund_failed}
use license_server_ai.Database.Core.{M, Result, ok, err, pure, recover, attempt, ◌>>=◌, ◌>>◌}
use license_server_ai.Database.Statements.{first_task, updates_task}
use license_server_ai.Credit.Refunds.{Settlement, fail_task_and_refund}
use license_server_ai.Async.Upstream.{Outside, ask}

abbrev pub unrefunded_task : String → ℕ → GenerationTask → GenerationTask
unrefunded_task reason now task = record task {
  status = failed;
  upstream_error = reason;
  refund_status = refund_failed;
  next_poll_at = none;
  completed_at = some now;
}

-- What is written when the transaction failed.
unfoldable pub mark_unrefunded : String → String → ℕ → Result Settlement → M (Unit {0})
mark_unrefunded id reason now (ok s) = pure tt
mark_unrefunded id reason now (err e) = recover (updates_task id (unrefunded_task reason now)) tt

-- `failTaskAndRefund`; the task is read again for the notifier.
unfoldable pub fail_and_refund : Outside → String → String → String → M (Unit {0})
unfolding mark_unrefunded ask
fail_and_refund w id reason note = do
  now ← ask w.clock
  r ← attempt (fail_task_and_refund id reason note now)
  later ← ask w.clock
  mark_unrefunded id reason later r
  recover (do first_task id; pure tt) tt

abbrev pub second : ℕ
second = 1000000000

-- The delays, in nanoseconds.
abbrev pub async_initial_poll_delay : ℕ
async_initial_poll_delay = 1 * second

abbrev pub async_progress_poll_delay : ℕ
async_progress_poll_delay = 2 * second

abbrev pub async_idle_poll_delay : ℕ
async_idle_poll_delay = 5 * second

-- `resolveNextAsyncPollDelay`, by whether there was progress.
unfoldable pub resolve_next_async_poll_delay : Bool → ℕ
resolve_next_async_poll_delay progressed =
    if progressed then async_progress_poll_delay else async_idle_poll_delay

-- The two tests at the start of `scheduleNextPoll`; a duration may be negative.
unfoldable pub clamp_delay : ℤ → ℕ
clamp_delay (negsuc n) = async_initial_poll_delay
clamp_delay (pos delay) =
    let delay' = (if delay == 0 then async_initial_poll_delay else delay) in
    if ltb async_idle_poll_delay delay' then async_idle_poll_delay else delay'

abbrev pub over : String → String → String
over new old = if str_eq new "" then old else new

unfoldable pub scheduled_task : ℕ → ℤ → String → String → GenerationTask → GenerationTask
unfolding clamp_delay
scheduled_task now delay status error task = record task {
  poll_interval = clamp_delay delay / second;
  next_poll_at = some (now + clamp_delay delay);
  upstream_status = over status task.upstream_status;
  upstream_error = over error task.upstream_error;
}

-- `scheduleNextPoll`, which no caller asks to notify.
unfoldable pub schedule_next_poll : Outside → String → ℤ → String → String → M (Unit {0})
unfolding scheduled_task ask
schedule_next_poll w id delay status error = do
  now ← ask w.clock
  recover (updates_task id (scheduled_task now delay status error)) tt
