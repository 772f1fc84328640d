-- ===== src/Activation/Devices.antt =====
-- The devices of the database as the activation of internal/handler/client.go reads and writes them.
use license_server_ai.Base.{
  ℕ, suc, ◌+◌, ◌≤◌, ◌≡◌, String, Bool, true, false, ◌&&◌, Option, none, some, List, [], ◌∷◌, ◌++◌,
  arith, if◌then◌else◌, str_eq, eq_iff, ltb,
}
use license_server_ai.Model.Device.{Device}

abbrev is_text : String → Option String → Bool
is_text s none = false
is_text s (some t) = str_eq t s

abbrev is_live : Option ℕ → Bool
is_live none = true
is_live (some _) = false

-- WHERE tenant_id = ? AND license_id = ?, without the deleted rows.
abbrev pub of_license : String → String → Device → Bool
of_license tenant license d =
    is_live d.deleted_at && str_eq d.tenant_id tenant && is_text license d.license_id

unfoldable pub count_devices : String → String → List Device → ℕ
count_devices tenant license [] = 0
count_devices tenant license (d ∷ ds) =
    let rest = count_devices tenant license ds in
    if of_license tenant license d then suc rest else rest

abbrev pub on_machine : String → String → String → Device → Bool
on_machine tenant license machine d = of_license tenant license d && str_eq d.machine_id machine

unfoldable pub find_device : String → String → String → List Device → Option Device
find_device tenant license machine [] = none
find_device tenant license machine (d ∷ ds) =
    if on_machine tenant license machine d then some d else find_device tenant license machine ds

-- The deleted rows.
abbrev was_on_machine : String → String → String → Device → Bool
was_on_machine tenant license machine d =
    not_live d.deleted_at
    && str_eq d.tenant_id tenant
    && is_text license d.license_id
    && str_eq d.machine_id machine
  where
    not_live : Option ℕ → Bool
    not_live none = false
    not_live (some _) = true

-- ORDER BY deleted_at DESC: whether the first time comes before the second one.
abbrev later : Option ℕ → Option ℕ → Bool
later (some s) (some t) = ltb t s
later (some s) none = true
later none t = false

abbrev last_deleted : Device → Option Device → Option Device
last_deleted d none = some d
last_deleted d (some e) = if later e.deleted_at d.deleted_at then some e else some d

unfoldable pub find_deleted : String → String → String → List Device → Option Device
find_deleted tenant license machine [] = none
find_deleted tenant license machine (d ∷ ds) =
    let rest = find_deleted tenant license machine ds in
    if was_on_machine tenant license machine d then last_deleted d rest else rest

-- `Unscoped().Save`, on the primary key.
unfoldable pub save_device_row : Device → List Device → List Device
save_device_row d [] = d ∷ []
save_device_row d (x ∷ xs) = if str_eq x.id d.id then d ∷ xs else x ∷ save_device_row d xs

unfoldable pub find_by_id : String → List Device → Option Device
find_by_id id [] = none
find_by_id id (d ∷ ds) = if str_eq d.id id then some d else find_by_id id ds

-- `id` is the primary key.
abbrev pub UniqueIds : List Device → Type 0
UniqueIds [] = Unit
UniqueIds (d ∷ ds) = (find_by_id d.id ds ≡ none) × UniqueIds ds

pub count_devices-append :
    (tenant license : String) (ds : List Device) (d : Device)
    → count_devices tenant license (ds ++ d ∷ []) ≤ 1 + count_devices tenant license ds
unfolding count_devices
count_devices-append tenant license [] d = ground arith
count_devices-append tenant license (x ∷ xs) d =
    ground (arith, count_devices-append tenant license xs d)

-- A saved device makes at most one more.
pub count_devices-save_le :
    (tenant license : String) (d : Device) (ds : List Device)
    → count_devices tenant license (save_device_row d ds) ≤ 1 + count_devices tenant license ds
unfolding count_devices save_device_row
count_devices-save_le tenant license d [] = ground arith
count_devices-save_le tenant license d (x ∷ xs) =
    ground (arith, count_devices-save_le tenant license d xs)

found-other_id :
    (tenant license machine i : String) (d : Device) (ds : List Device)
    → find_by_id i ds ≡ none
    → find_device tenant license machine ds ≡ some d
    → str_eq d.id i ≡ false
unfolding find_device find_by_id
found-other_id tenant license machine i d [] u h = ground arith
found-other_id tenant license machine i d (x ∷ xs) u h =
    ground (arith, found-other_id tenant license machine i d xs)

-- A device that is found on the machine and saved makes no more.
pub count_devices-save :
    (tenant license machine : String) (d d' : Device) (ds : List Device)
    → UniqueIds ds
    → find_device tenant license machine ds ≡ some d
    → d'.id ≡ d.id
    → count_devices tenant license (save_device_row d' ds) ≤ count_devices tenant license ds
unfolding count_devices save_device_row find_device
count_devices-save tenant license machine d d' [] u h e = ground arith
count_devices-save tenant license machine d d' (x ∷ xs) u h e = ground (
  arith,
  count_devices-save tenant license machine d d' xs u.1,
  found-other_id tenant license machine x.id d xs u.0,
  eq_iff x.id d'.id,
  eq_iff d.id x.id,
)
