-- ===== src/Model/License.antt =====
-- internal/model/license.go: the licence and its events. Times are nanoseconds; a `*time.Time` is an
-- `Option`. The type, the metadata and the associations
-- are left out.
use license_server_ai.Base.{ℕ, String, Bool, true, false, Option, none, some, if◌then◌else◌, ltb}
use license_server_ai.Base.Int.{ℤ, pos, ◌-ℤ◌, ltb_ℤ, wrap64}

pub data LicenseStatus : Type 0 where
  pending active expired suspended revoked : LicenseStatus

pub record License : Type 0 where
  pub id : String
  pub tenant_id : String
  pub app_id : String
  pub customer_id : Option String
  pub license_key : String
  pub duration_days : ℤ  -- int, -1 for a perpetual licence
  pub max_devices : ℤ  -- int
  pub unbind_limit : ℤ  -- int
  pub unbind_used : ℤ  -- int
  pub activated_at : Option ℕ
  pub expire_at : Option ℕ
  pub grace_expire_at : Option ℕ
  pub last_validated_at : Option ℕ
  pub status : LicenseStatus
  pub suspended_reason : String
  pub revoked_reason : String
  pub features : String
  pub notes : String

pub data LicenseEventType : Type 0 where
  created activated_event renewed_event suspended_event resumed_event revoked_event :
      LicenseEventType

pub record LicenseEvent : Type 0 where
  pub license_id : String
  pub event_type : LicenseEventType
  pub notes : String

abbrev pub license_status_eq : LicenseStatus → LicenseStatus → Bool
license_status_eq pending pending = true
license_status_eq active active = true
license_status_eq expired expired = true
license_status_eq suspended suspended = true
license_status_eq revoked revoked = true
license_status_eq _ _ = false

abbrev in_grace : ℕ → Option ℕ → Bool
in_grace now none = false
in_grace now (some g) = ltb now g

abbrev in_time : ℕ → Option ℕ → Option ℕ → Bool
in_time now grace none = true
in_time now grace (some e) = if ltb e now then in_grace now grace else true

-- `IsValid` at a time.
unfoldable pub is_valid : ℕ → License → Bool
is_valid now l =
    if license_status_eq l.status active then in_time now l.grace_expire_at l.expire_at else false

unfoldable pub remaining_client_unbind_count : License → ℤ
remaining_client_unbind_count l =
    let remaining = wrap64 (l.unbind_limit -ℤ l.unbind_used) in
    if ltb_ℤ remaining (pos 0) then pos 0 else remaining

unfoldable pub can_client_unbind : License → Bool
can_client_unbind l = ltb_ℤ l.unbind_used l.unbind_limit
