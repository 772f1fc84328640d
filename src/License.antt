-- ===== src/License.antt =====
-- internal/handler/license.go: the life of a licence under an administrator's calls.
pub mod Store
pub mod Handlers
pub mod Life
pub mod Steps
pub mod Keeps
pub mod Trace
pub mod Renewal
pub mod Success
mod Tests
