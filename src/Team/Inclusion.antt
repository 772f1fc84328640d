-- ===== src/Team/Inclusion.antt =====
-- The roles of internal/model/team_member.go are ordered: a higher role may do whatever
-- a lower one may.
use license_server_ai.Base.{
  ℕ, ◌≡◌, refl, String, Bool, true, ◌&&◌, [], ◌∷◌, arith, if◌then◌else◌, eq_iff, and_right, leb,
}
use license_server_ai.Team.Roles.{
  TeamMemberRole, owner, admin, developer, viewer, Permissions, role_permissions, lookup,
  has_permission,
}

-- Every permission that the first list grants is granted by the second.
abbrev included : Permissions → Permissions → Bool
included [] qs = true
included ((k, allowed) ∷ ps) qs = (if allowed then lookup k qs else true) && included ps qs

lookup-included :
    (p : String) (ps qs : Permissions)
    → included ps qs ≡ true
    → lookup p ps ≡ true
    → lookup p qs ≡ true
unfolding lookup
lookup-included p [] qs h g = ground arith
lookup-included p ((k, allowed) ∷ ps) qs h g =
    let rest = lookup-included p ps qs (and_right (if allowed then lookup k qs else true) _ h) in
    ground (arith, rest, eq_iff k p)

-- The rank of a role.
abbrev pub rank : TeamMemberRole → ℕ
rank viewer = 0
rank developer = 1
rank admin = 2
rank owner = 3

roles-included :
    (r s : TeamMemberRole)
    → leb (rank r) (rank s) ≡ true
    → included (role_permissions r) (role_permissions s) ≡ true
unfolding lookup
roles-included viewer viewer h = refl
roles-included viewer developer h = refl
roles-included viewer admin h = refl
roles-included viewer owner h = refl
roles-included developer viewer h = ground arith
roles-included developer developer h = refl
roles-included developer admin h = refl
roles-included developer owner h = refl
roles-included admin viewer h = ground arith
roles-included admin developer h = ground arith
roles-included admin admin h = refl
roles-included admin owner h = refl
roles-included owner viewer h = ground arith
roles-included owner developer h = ground arith
roles-included owner admin h = ground arith
roles-included owner owner h = refl

-- For every permission, also one that is in no table: a role of at least the same rank has it too.
pub has_permission-rank :
    (r s : TeamMemberRole) (p : String)
    → leb (rank r) (rank s) ≡ true
    → has_permission r p ≡ true
    → has_permission s p ≡ true
unfolding has_permission
has_permission-rank r s p h g =
    lookup-included p (role_permissions r) (role_permissions s) (roles-included r s h) g
