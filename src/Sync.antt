-- ===== src/Sync.antt =====
-- The synchronisation of a client's data: internal/service/data_sync.go.
pub mod Table
pub mod Rows
pub mod Conflicts
pub mod Push
pub mod Written
pub mod Kinds
pub mod Resolve
pub mod Accept
pub mod Checkpoints
pub mod Refusal
pub mod Outcome
pub mod Dispatch
pub mod Unique
pub mod Versions
pub mod Acknowledged
pub mod Pending
pub mod Trace
pub mod Applied
pub mod Texts
pub mod Changes
pub mod Paging
pub mod Resume
mod Tests
