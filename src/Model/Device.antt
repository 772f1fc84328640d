-- ===== src/Model/Device.antt =====
-- internal/model/device.go, and the device information of a request (internal/handler/client.go).
-- `deleted_at` is the mark of a deleted row. The place of the address and the heartbeat are left out.
use license_server_ai.Base.{ℕ, String, Bool, true, false, Option}

pub data DeviceStatus : Type 0 where
  active_device inactive blacklisted : DeviceStatus

pub record DeviceInfo : Type 0 where
  pub name : String
  pub hostname : String
  pub os : String
  pub os_version : String
  pub app_version : String

pub record Device : Type 0 where
  pub id : String
  pub tenant_id : String
  pub customer_id : String
  pub license_id : Option String
  pub machine_id : String
  pub info : DeviceInfo
  pub ip_address : String
  pub device_status : DeviceStatus
  pub last_active_at : Option ℕ
  pub deleted_at : Option ℕ

abbrev pub is_blacklisted : DeviceStatus → Bool
is_blacklisted blacklisted = true
is_blacklisted _ = false
