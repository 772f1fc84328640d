-- ===== src/License/Handlers.antt =====
-- The administrator's calls of internal/handler/license.go. `now` is the time that the call reads
-- from the clock, in nanoseconds; a day of `AddDate` is 24 hours, as in UTC.
use license_server_ai.Base.{
  ℕ, ◌+◌, ◌*◌, String, Bool, true, false, ◌||◌, Option, none, some, if◌then◌else◌, ltb,
}
use license_server_ai.Base.Int.{ℤ, pos, negsuc, ◌+ℤ◌, eqb_ℤ, ltb_ℤ, wrap64}
use license_server_ai.Model.License.{
  pending, active, expired, suspended, revoked, License, LicenseEvent, LicenseEventType,
  renewed_event, suspended_event, resumed_event, revoked_event, license_status_eq,
}
use license_server_ai.Database.Core.{
  M, license_not_found, license_revoked, license_perpetual, not_active, not_suspended, not_pending,
  devices_not_positive, unbinds_negative, save_failed, event_failed, pure, raise, ◌>>=◌, ◌>>◌,
}
use license_server_ai.License.Store.{
  Actor, first_license, save_license, create_event, delete_events, delete_license, failing_as,
}

abbrev pub day : ℕ
day = 24 * 3600 * 1000000000

abbrev pub past : ℕ → Option ℕ → Bool
past now none = false
past now (some e) = ltb e now

abbrev or_now : ℕ → Option ℕ → ℕ
or_now now none = now
or_now now (some e) = e

-- The licence counts as run out: it is marked so, or its time is over.
abbrev pub run_out : ℕ → License → Bool
run_out now l = license_status_eq l.status expired || past now l.expire_at

abbrev pub new_expire_at : ℕ → ℕ → License → ℕ
new_expire_at now days l =
    if run_out now l then now + days * day else or_now now l.expire_at + days * day

unfoldable pub renewed : ℕ → ℕ → License → License
renewed now days l = record l {
  status = if run_out now l then active else l.status;
  expire_at = some (new_expire_at now days l);
  duration_days = wrap64 (l.duration_days +ℤ pos days);
}

abbrev pub event : License → LicenseEventType → String → LicenseEvent
event l k notes = record { license_id = l.id; event_type = k; notes = notes }

-- `DB.Save(&license)` and then `DB.Create(&event)`, as all four changes of the status do.
unfoldable pub save_with_event : License → LicenseEvent → M License
save_with_event l e = do
  failing_as save_failed (save_license l)
  failing_as event_failed (create_event e)
  pure l

-- `Renew`; the request's days are at least 1.
unfoldable pub renew : Actor → String → ℕ → ℕ → M License
renew actor id days now = do
  l ← failing_as license_not_found (first_license actor id)
  if license_status_eq l.status revoked
      then raise license_revoked
      else if eqb_ℤ l.duration_days (negsuc 0)
      then raise license_perpetual
      else save_with_event (renewed now days l) (event l renewed_event "")

abbrev pub revoked_as : String → License → License
revoked_as reason l = record l { status = revoked; revoked_reason = reason }

-- `Revoke`.
unfoldable pub revoke : Actor → String → String → M License
revoke actor id reason = do
  l ← failing_as license_not_found (first_license actor id)
  if license_status_eq l.status revoked
      then raise license_revoked
      else save_with_event (revoked_as reason l) (event l revoked_event reason)

abbrev pub suspended_as : String → License → License
suspended_as reason l = record l { status = suspended; suspended_reason = reason }

-- `Suspend`.
unfoldable pub suspend : Actor → String → String → M License
suspend actor id reason = do
  l ← failing_as license_not_found (first_license actor id)
  if license_status_eq l.status active
      then save_with_event (suspended_as reason l) (event l suspended_event reason)
      else raise not_active

abbrev pub resumed : License → License
resumed l = record l { status = active; suspended_reason = "" }

-- `Resume`.
unfoldable pub resume : Actor → String → M License
resume actor id = do
  l ← failing_as license_not_found (first_license actor id)
  if license_status_eq l.status suspended
      then save_with_event (resumed l) (event l resumed_event "")
      else raise not_suspended

-- `UpdateLicenseRequest`; the features are encoded.
pub record UpdateLicenseRequest : Type 0 where
  pub max_devices : Option ℤ
  pub unbind_limit : Option ℤ
  pub notes : Option String
  pub features : Option String

abbrev pub or_kept : {A : Type 0} → Option A → A → A
or_kept none a = a
or_kept (some b) a = b

abbrev given : {A : Type 0} → Option A → Bool
given none = false
given (some _) = true

-- The map of updates, applied to the row.
abbrev pub updated : UpdateLicenseRequest → License → License
updated req l = record l {
  max_devices = or_kept req.max_devices l.max_devices;
  unbind_limit = or_kept req.unbind_limit l.unbind_limit;
  notes = or_kept req.notes l.notes;
  features = or_kept req.features l.features;
}

abbrev pub any_given : UpdateLicenseRequest → Bool
any_given req =
    given req.max_devices || given req.unbind_limit || given req.notes || given req.features

abbrev pub too_small : ℤ → Option ℤ → Bool
too_small least none = false
too_small least (some n) = ltb_ℤ n least

-- `Update`.
unfoldable pub update : Actor → String → UpdateLicenseRequest → M License
update actor id req = do
  l ← failing_as license_not_found (first_license actor id)
  if too_small (pos 1) req.max_devices
      then raise devices_not_positive
      else if too_small (pos 0) req.unbind_limit
      then raise unbinds_negative
      else if any_given req
      then (do failing_as save_failed (save_license (updated req l)); pure (updated req l))
      else pure l

-- `ResetUnbindCount`.
unfoldable pub reset_unbind_count : Actor → String → M License
reset_unbind_count actor id = do
  l ← failing_as license_not_found (first_license actor id)
  failing_as save_failed (save_license (record l { unbind_used = pos 0 }))
  pure l

-- `Delete`.
unfoldable pub delete : Actor → String → M License
delete actor id = do
  l ← failing_as license_not_found (first_license actor id)
  if license_status_eq l.status pending
      then (do
        failing_as event_failed (delete_events id)
        failing_as save_failed (delete_license id)
        pure l)
      else raise not_pending
