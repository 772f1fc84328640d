-- ===== src/Sync/Table.antt =====
-- A table with a primary key: how gorm's `Save` and a lookup of the key treat its rows.
use license_server_ai.Base.{
  ◌≡◌, String, Option, none, some, List, [], ◌∷◌, if◌then◌else◌, str_eq, Bool,
}
use license_server_ai.Sync.Texts.{str_lt}

module _ {A : Type 0} (id_of : A → String) where
  abbrev pub save_by : A → List A → List A
  save_by r [] = r ∷ []
  save_by r (x ∷ xs) = if str_eq (id_of x) (id_of r) then r ∷ xs else x ∷ save_by r xs

  unfoldable pub find_id : String → List A → Option A
  find_id i [] = none
  find_id i (x ∷ xs) = if str_eq (id_of x) i then some x else find_id i xs

  abbrev with_least : A → Option A → A
  with_least x none = x
  with_least x (some y) = if str_lt (id_of y) (id_of x) then y else x

  -- `First`: of the rows that a test takes, the one with the least key.
  unfoldable pub find_least : (A → Bool) → List A → Option A
  find_least p [] = none
  find_least p (x ∷ xs) =
      let rest = find_least p xs in if p x then some (with_least x rest) else rest

  abbrev pub UniqueIds : List A → Type 0
  UniqueIds [] = Unit
  UniqueIds (x ∷ xs) = (find_id (id_of x) xs ≡ none) × UniqueIds xs
