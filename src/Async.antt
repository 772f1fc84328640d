-- ===== src/Async.antt =====
-- The runner of generation tasks: internal/service/async_runner.go, over the credit service and the
-- credentials.
pub mod Upstream
pub mod Failure
pub mod Saving
pub mod Start
pub mod Poll
pub mod Keeps
pub mod Attempts
pub mod Frames
pub mod Trace
pub mod Charge
pub mod Fresh
pub mod Conclusion
pub mod PaidBack
pub mod Saved
pub mod Due
pub mod Delay
mod Tests
