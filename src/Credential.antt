-- ===== src/Credential.antt =====
-- The credentials for the upstream providers: internal/service/provider_credential.go.
pub mod Modes
pub mod Selection
pub mod Picks
mod Tests
