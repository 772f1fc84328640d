-- ===== src/Activation/Bound.antt =====
-- The transaction of `Activate`, internal/handler/client.go, keeps the limit on devices.
use license_server_ai.Base.{
  ℕ, ◌+◌, ◌≤◌, ◌≡◌, refl, ◌⊎◌, inl, inr, String, false, ◌&&◌, Option, none, some, List, arith,
}
use license_server_ai.Base.Int.{pos, leb_ℤ, ◌≤ℤ◌}
use license_server_ai.Model.License.{License}
use license_server_ai.Model.Device.{Device, is_blacklisted}
use license_server_ai.Database.Core.{Db, Tables, tick}
use license_server_ai.Database.Ends.{Ends, returns, raises, Ends-if, Ends-bind, read-then, act-then}
use license_server_ai.License.Store.{save_license, with_license}
use license_server_ai.License.Keeps.{write-Ends}
use license_server_ai.Activation.Devices.{
  count_devices, find_device, find_deleted, UniqueIds, count_devices-append, count_devices-save_le,
  count_devices-save,
}
use license_server_ai.Activation.Activate.{
  Request, with_device, save_device, with_new_device, create_device, refreshed, update_device,
  new_device, restore_or_create, place_device, bind_device, is_none,
}

-- The devices of the licence are no more than before, or within its limit.
abbrev pub WithinLimit : License → List Device → List Device → Type 0
WithinLimit l before after =
    (count_devices l.tenant_id l.id after ≤ count_devices l.tenant_id l.id before)
    ⊎ (pos (count_devices l.tenant_id l.id after) ≤ℤ l.max_devices)

module _ (req : Request) (customer : String) (now : ℕ) (l : License) where
  -- There is room for one more.
  abbrev Room : List Device → Type 0
  Room ds = leb_ℤ l.max_devices (pos (count_devices l.tenant_id l.id ds)) ≡ false

  one_more :
      (before after : List Device)
      → Room before
      → count_devices l.tenant_id l.id after ≤ 1 + count_devices l.tenant_id l.id before
      → WithinLimit l before after
  one_more before after room h = inr (ground arith)

  update_device-found :
      (d : Db) (dev : Device)
      → UniqueIds d.devices
      → find_device l.tenant_id l.id req.machine_id d.devices ≡ some dev
      → Ends
          (λ _ t. WithinLimit l d.devices t.devices)
          (λ _. Unit)
          (update_device req customer now dev d)
  unfolding update_device save_device
  update_device-found d dev unique found =
      Ends-if (is_blacklisted dev.device_status) _ _ d (λ _. raises tt)
        λ _.
          write-Ends (λ t. WithinLimit l d.devices t.devices) (λ _. Unit)
            (with_device (refreshed req customer now dev)) d
            (inl (
              count_devices-save l.tenant_id l.id req.machine_id dev
                (refreshed req customer now dev) d.devices unique found refl))
            tt

  restore_or_create-Ends :
      (d : Db) (gone : Option Device)
      → Room d.devices
      → Ends
          (λ _ t. WithinLimit l d.devices t.devices)
          (λ _. Unit)
          (restore_or_create req customer now l gone d)
  unfolding restore_or_create create_device update_device save_device
  restore_or_create-Ends d none room =
      write-Ends (λ t. WithinLimit l d.devices t.devices) (λ _. Unit)
        (with_new_device (new_device req customer now l)) d
        (one_more d.devices _ room
          (count_devices-append l.tenant_id l.id d.devices (new_device req customer now l)))
        tt
  restore_or_create-Ends d (some dev) room =
      Ends-if (is_blacklisted dev.device_status) _ _ d (λ _. raises tt)
        λ _.
          write-Ends (λ t. WithinLimit l d.devices t.devices) (λ _. Unit)
            (with_device (refreshed req customer now dev)) d
            (one_more d.devices _ room
              (count_devices-save_le l.tenant_id l.id (refreshed req customer now dev) d.devices))
            tt

  place_device-Ends :
      (d : Db) (found : Option Device)
      → UniqueIds d.devices
      → find_device l.tenant_id l.id req.machine_id d.devices ≡ found
      → (is_none found && leb_ℤ l.max_devices (pos (count_devices l.tenant_id l.id d.devices)))
        ≡ false
      → Ends
          (λ _ t. WithinLimit l d.devices t.devices)
          (λ _. Unit)
          (place_device req customer now l found d)
  unfolding place_device
  place_device-Ends d (some dev) unique e room = update_device-found d dev unique e
  place_device-Ends d none unique e room =
      read-then (λ t. find_deleted l.tenant_id l.id req.machine_id t.devices) _ d
        (restore_or_create-Ends (tick d) _ room) tt

  -- What the rest of the call returns, and leaves.
  abbrev pub Bound : List Device → License → Tables → Type 0
  Bound before n t =
      (record l { last_validated_at = some now } ≡ n) × WithinLimit l before t.devices

  pub bind_device-Ends :
      (d : Db)
      → UniqueIds d.devices
      → Ends (Bound d.devices) (λ _. Unit) (bind_device req customer now l d)
  unfolding bind_device save_license
  bind_device-Ends d unique =
      read-then (λ t. count_devices l.tenant_id l.id t.devices) _ d
        (read-then (λ t. find_device l.tenant_id l.id req.machine_id t.devices) _ (tick d)
          (Ends-if
            (is_none (find_device l.tenant_id l.id req.machine_id d.devices)
              && leb_ℤ l.max_devices (pos (count_devices l.tenant_id l.id d.devices)))
            _ _ (tick (tick d)) (λ _. raises tt)
            λ room.
              Ends-bind (λ _ t. WithinLimit l d.devices t.devices)
                (place_device req customer now l
                  (find_device l.tenant_id l.id req.machine_id d.devices))
                _ (tick (tick d)) (place_device-Ends (tick (tick d)) _ unique refl room)
                λ _ d' within.
                  act-then (λ _. tt) (with_license (record l { last_validated_at = some now })) _ d'
                    (returns (refl, within)) tt)
          tt)
        tt
