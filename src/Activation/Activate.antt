-- ===== src/Activation/Activate.antt =====
-- internal/handler/client.go: the transaction of `Activate`, with its two helpers. The application, the
-- address, the clock and the identity of a new device are given.
use license_server_ai.Base.{
  ℕ, ◌+◌, ◌*◌, String, Bool, true, false, ◌&&◌, Option, none, some, [], ◌∷◌, ◌++◌, if◌then◌else◌,
  str_eq, ltb,
}
use license_server_ai.Base.Int.{pos, negsuc, leb_ℤ, eqb_ℤ, pos_part}
use license_server_ai.Model.License.{
  License, LicenseEvent, pending, active, expired, suspended, revoked, activated_event,
  license_status_eq,
}
use license_server_ai.Model.Device.{Device, DeviceInfo, active_device, is_blacklisted}
use license_server_ai.Database.Core.{
  M, Tables, ok, no_customer, license_revoked, license_suspended, license_expired, device_limit,
  device_blacklisted, pure, raise, send, recover, transaction, ◌>>=◌, ◌>>◌,
}
use license_server_ai.Database.Statements.{first, read}
use license_server_ai.License.Store.{find_by_key, save_license, create_event}
use license_server_ai.License.Handlers.{day, past}
use license_server_ai.Activation.Devices.{count_devices, find_device, find_deleted, save_device_row}

-- The request, and what the handler has found out before the transaction. The grace period is
-- not negative, and a duration is not negative or -1, as the handlers that set them ensure.
pub record Request : Type 0 where
  pub license_key : String
  pub app_id : String
  pub grace_period_days : ℕ
  pub machine_id : String
  pub info : DeviceInfo
  pub ip : String
  pub new_device_id : String

abbrev pub with_device : Device → Tables → Tables
with_device d t = record t { devices = save_device_row d t.devices }

unfoldable pub save_device : Device → M (Unit {0})
save_device d = send (λ t. ok (tt, with_device d t))

abbrev pub with_new_device : Device → Tables → Tables
with_new_device d t = record t { devices = t.devices ++ d ∷ [] }

unfoldable pub create_device : Device → M (Unit {0})
create_device d = send (λ t. ok (tt, with_new_device d t))

abbrev pub refreshed : Request → String → ℕ → Device → Device
refreshed req customer now d = record d {
  customer_id = customer;
  info = req.info;
  ip_address = req.ip;
  device_status = active_device;
  last_active_at = some now;
  deleted_at = none;
}

-- `updateClientDeviceForActivation`.
unfoldable pub update_device : Request → String → ℕ → Device → M (Unit {0})
update_device req customer now d =
    if is_blacklisted d.device_status
    then raise device_blacklisted
    else save_device (refreshed req customer now d)

abbrev pub new_device : Request → String → ℕ → License → Device
new_device req customer now l = record {
  id = req.new_device_id;
  tenant_id = l.tenant_id;
  customer_id = customer;
  license_id = some l.id;
  machine_id = req.machine_id;
  info = req.info;
  ip_address = req.ip;
  device_status = active_device;
  last_active_at = some now;
  deleted_at = none;
}

-- `restoreDeletedLicenseDevice`, or else a new device.
unfoldable pub restore_or_create : Request → String → ℕ → License → Option Device → M (Unit {0})
restore_or_create req customer now l none = create_device (new_device req customer now l)
restore_or_create req customer now l (some d) = update_device req customer now d

unfoldable pub place_device : Request → String → ℕ → License → Option Device → M (Unit {0})
place_device req customer now l (some d) = update_device req customer now d
place_device req customer now l none = do
  gone ← read (λ t. find_deleted l.tenant_id l.id req.machine_id t.devices)
  restore_or_create req customer now l gone

abbrev expiry : Request → ℕ → License → Option ℕ
expiry req now l =
    if eqb_ℤ l.duration_days (negsuc 0) then none else some (now + pos_part l.duration_days * day)

abbrev grace : Request → ℕ → License → Option ℕ
grace req now l =
    if eqb_ℤ l.duration_days (negsuc 0)
    then l.grace_expire_at
    else some (now + pos_part l.duration_days * day + req.grace_period_days * day)

-- The licence after its first activation.
abbrev pub activated : Request → ℕ → License → License
activated req now l = record l {
  activated_at = some now;
  expire_at = expiry req now l;
  grace_expire_at = grace req now l;
  status = active;
}

abbrev pub activation_event : License → LicenseEvent
activation_event l = record { license_id = l.id; event_type = activated_event; notes = "" }

unfoldable pub start_license : Request → ℕ → License → M License
start_license req now l =
    if license_status_eq l.status pending
    then (do create_event (activation_event l); pure (activated req now l))
    else pure l

abbrev past_grace : ℕ → Option ℕ → Bool
past_grace now none = true
past_grace now (some g) = ltb g now

abbrev pub is_expired : ℕ → License → Bool
is_expired now l = past now l.expire_at && past_grace now l.grace_expire_at

abbrev pub is_none : Option Device → Bool
is_none none = true
is_none (some _) = false

-- From the count of the devices on.
unfoldable pub bind_device : Request → String → ℕ → License → M License
bind_device req customer now l = do
  n ← read (λ t. count_devices l.tenant_id l.id t.devices)
  found ← read (λ t. find_device l.tenant_id l.id req.machine_id t.devices)
  if is_none found && leb_ℤ l.max_devices (pos n) then raise device_limit else (do
    place_device req customer now l found
    save_license (record l { last_validated_at = some now })
    pure (record l { last_validated_at = some now }))

abbrev pub with_customer : Option String → String
with_customer none = ""
with_customer (some c) = c

unfoldable pub activate_body : Request → ℕ → M License
activate_body req now = do
  l ← send (λ t. first t (find_by_key req.license_key req.app_id t.licenses))
  if str_eq (with_customer l.customer_id) ""
      then raise no_customer
      else if license_status_eq l.status revoked
      then raise license_revoked
      else if license_status_eq l.status suspended
      then raise license_suspended
      else (do
        l' ← start_license req now l
        if is_expired now l'
            then (do
              recover (save_license (record l' { status = expired })) tt
              raise license_expired)
            else bind_device req (with_customer l.customer_id) now l')

-- The transaction of `Activate`. The checks before it, of the application and of the blacklist of
-- machines, and the session that is issued after it are left out.
unfoldable pub activate_transaction : Request → ℕ → M License
activate_transaction req now = transaction (activate_body req now)
