-- ===== src/Activation.antt =====
-- internal/handler/client.go: a client activates a licence on a device.
pub mod Devices
pub mod Activate
pub mod Bound
pub mod Admission
mod Tests
