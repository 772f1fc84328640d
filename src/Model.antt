-- ===== src/Model.antt =====
-- The tables of internal/model that the services read and write.
pub mod Credit
pub mod Generation
pub mod Credential
pub mod Pricing
pub mod License
pub mod Device
pub mod Sync
