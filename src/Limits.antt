-- ===== src/Limits.antt =====
-- The limiters of requests and of logins.
pub mod Rate
pub mod Counts
pub mod Window
pub mod Cleanup
pub mod Login
pub mod Lock
pub mod Sweep
mod Tests
