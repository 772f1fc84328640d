-- ===== src/Credit.antt =====
-- internal/service/credit.go: the credit service. Its operations, by what they change, and the
-- theorems about them.
pub mod Accounts
pub mod Tasks
pub mod Refunds
pub mod Admin
pub mod Closed
pub mod Frames
pub mod RefundFrames
pub mod Ledger
pub mod RefundOnce
pub mod Trace
pub mod Charges
pub mod Steady
pub mod Repayment
pub mod Settlement
pub mod Success
pub mod RefundSuccess
mod Tests
