-- ===== src/License/Store.antt =====
-- The licences of the database as internal/handler/license.go reads and writes them. Deleting marks
-- a row, and no query sees it from then on: it is taken out of the table.
use license_server_ai.Base.{
  ◌≡◌, refl, String, Bool, false, ◌&&◌, ◌||◌, Option, none, some, List, [], ◌∷◌, ◌++◌, arith,
  if◌then◌else◌, str_eq, eq_iff, not, filter_if,
}
use license_server_ai.Model.License.{License, LicenseEvent}
use license_server_ai.Database.Core.{M, Db, Tables, Customer, Error, Result, ok, err, send}
use license_server_ai.Database.Statements.{first}

-- WHERE licenses.id = ?, on the primary key.
unfoldable pub find_license : String → List License → Option License
find_license id [] = none
find_license id (l ∷ ls) = if str_eq l.id id then some l else find_license id ls

unfoldable pub save_row : License → List License → List License
save_row l [] = l ∷ []
save_row l (x ∷ xs) = if str_eq x.id l.id then l ∷ xs else x ∷ save_row l xs

unfoldable pub delete_row : String → List License → List License
delete_row id [] = []
delete_row id (x ∷ xs) = let rest = delete_row id xs in if str_eq x.id id then rest else x ∷ rest

pub find_license-save_row :
    (id : String) (l : License) (ls : List License)
    → find_license id (save_row l ls) ≡ (if str_eq l.id id then some l else find_license id ls)
unfolding find_license save_row
find_license-save_row id l [] = refl
find_license-save_row id l (x ∷ xs) =
    ground (arith, eq_iff x.id l.id, eq_iff x.id id, eq_iff l.id id, find_license-save_row id l xs)

pub find_license-delete_row :
    (i id : String) (ls : List License)
    → find_license i (delete_row id ls) ≡ (if str_eq id i then none else find_license i ls)
unfolding find_license delete_row
find_license-delete_row i id [] = ground arith
find_license-delete_row i id (x ∷ xs) =
    ground (arith, eq_iff x.id id, eq_iff x.id i, eq_iff id i, find_license-delete_row i id xs)

pub find_license-id :
    (id : String) (ls : List License) (l : License) → find_license id ls ≡ some l → l.id ≡ id
unfolding find_license
find_license-id id [] l h = ground arith
find_license-id id (x ∷ xs) l h = ground (arith, eq_iff x.id id, find_license-id id xs l)

-- Who sends a request: a tenant's administrator sees every licence of the tenant, any other team
-- member those of the customers whom the member owns.
pub record Actor : Type 0 where
  pub tenant_id : String
  pub user_id : String
  pub is_tenant_admin : Bool

abbrev owned_by : String → String → List Customer → Bool
owned_by user customer [] = false
owned_by user customer (c ∷ cs) =
    if str_eq c.id customer then str_eq c.owner_id user else owned_by user customer cs

abbrev owner_is : String → List Customer → Option String → Bool
owner_is user cs none = false
owner_is user cs (some customer) = owned_by user customer cs

-- `scopedLicenseQuery`.
unfoldable pub in_scope : Actor → List Customer → License → Bool
in_scope a cs l =
    str_eq l.tenant_id a.tenant_id && (a.is_tenant_admin || owner_is a.user_id cs l.customer_id)

abbrev pub scoped : Actor → List Customer → Option License → Option License
scoped a cs none = none
scoped a cs (some l) = if in_scope a cs l then some l else none

abbrev pub scoped_in : Actor → String → Tables → Option License
scoped_in a id t = scoped a t.customers (find_license id t.licenses)

unfoldable pub first_license : Actor → String → M License
first_license a id = send (λ t. first t (scoped_in a id t))

-- WHERE license_key = ? AND app_id = ?.
unfoldable pub find_by_key : String → String → List License → Option License
find_by_key key app [] = none
find_by_key key app (l ∷ ls) =
    if str_eq l.license_key key && str_eq l.app_id app then some l else find_by_key key app ls

abbrev pub with_license : License → Tables → Tables
with_license l t = record t { licenses = save_row l t.licenses }

unfoldable pub save_license : License → M (Unit {0})
save_license l = send (λ t. ok (tt, with_license l t))

abbrev pub with_event : LicenseEvent → Tables → Tables
with_event e t = record t { license_events = t.license_events ++ e ∷ [] }

unfoldable pub create_event : LicenseEvent → M (Unit {0})
create_event e = send (λ t. ok (tt, with_event e t))

abbrev not_of : String → LicenseEvent → Bool
not_of id e = not (str_eq e.license_id id)

abbrev pub without_events : String → Tables → Tables
without_events id t = record t { license_events = filter_if (not_of id) t.license_events }

unfoldable pub delete_events : String → M (Unit {0})
delete_events id = send (λ t. ok (tt, without_events id t))

abbrev pub without_license : String → Tables → Tables
without_license id t = record t { licenses = delete_row id t.licenses }

unfoldable pub delete_license : String → M (Unit {0})
delete_license id = send (λ t. ok (tt, without_license id t))

-- The handlers answer any error of a call with an error of their own.
unfoldable pub replied : {A : Type 0} → Error → Result A × Db → Result A × Db
replied e (ok a, d) = (ok a, d)
replied e (err _, d) = (err e, d)

unfoldable pub failing_as : {A : Type 0} → Error → M A → M A
unfolding replied
failing_as e m d = replied e (m d)
