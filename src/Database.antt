-- ===== src/Database.antt =====
-- The database: the monad of statements and transactions, searches in tables, and statements.
pub mod Core
pub mod Tables
pub mod Statements
pub mod Ends
pub mod Success
pub mod Attempt
pub mod Steady
