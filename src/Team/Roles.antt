-- ===== src/Team/Roles.antt =====
-- internal/model/team_member.go: the roles of a team and the table `RolePermissions`. A role is a text
-- in the program; only its four constants have permissions.
use license_server_ai.Base.{String, Bool, true, false, List, [], ◌∷◌, if◌then◌else◌, str_eq}

pub data TeamMemberRole : Type 0 where
  owner admin developer viewer : TeamMemberRole

abbrev pub Permissions : Type 0
Permissions = List (String × Bool)

abbrev pub owner_permissions : Permissions
owner_permissions =
    ("tenant:read", true)
    ∷ ("tenant:update", true)
    ∷ ("tenant:delete", true)
    ∷ ("member:read", true)
    ∷ ("member:invite", true)
    ∷ ("member:update", true)
    ∷ ("member:delete", true)
    ∷ ("app:read", true)
    ∷ ("app:create", true)
    ∷ ("app:update", true)
    ∷ ("app:delete", true)
    ∷ ("customer:read", true)
    ∷ ("customer:create", true)
    ∷ ("customer:update", true)
    ∷ ("customer:delete", true)
    ∷ ("license:read", true)
    ∷ ("license:create", true)
    ∷ ("license:update", true)
    ∷ ("license:delete", true)
    ∷ ("subscription:read", true)
    ∷ ("subscription:create", true)
    ∷ ("subscription:update", true)
    ∷ ("subscription:delete", true)
    ∷ ("device:read", true)
    ∷ ("device:update", true)
    ∷ ("device:delete", true)
    ∷ ("stats:read", true)
    ∷ ("export:read", true)
    ∷ ("audit:read", true)
    ∷ ("backup:read", true)
    ∷ ("backup:update", true)
    ∷ ("proxy_credential:read", true)
    ∷ ("proxy_credential:create", true)
    ∷ ("proxy_credential:update", true)
    ∷ ("proxy_credential:delete", true)
    ∷ ("pricing:read", true)
    ∷ ("pricing:create", true)
    ∷ ("pricing:update", true)
    ∷ ("pricing:delete", true)
    ∷ ("credit:read", true)
    ∷ ("credit:update", true)
    ∷ []

abbrev pub admin_permissions : Permissions
admin_permissions =
    ("tenant:read", true)
    ∷ ("tenant:update", true)
    ∷ ("tenant:delete", false)
    ∷ ("member:read", true)
    ∷ ("member:invite", true)
    ∷ ("member:update", true)
    ∷ ("member:delete", true)
    ∷ ("app:read", true)
    ∷ ("app:create", true)
    ∷ ("app:update", true)
    ∷ ("app:delete", true)
    ∷ ("customer:read", true)
    ∷ ("customer:create", true)
    ∷ ("customer:update", true)
    ∷ ("customer:delete", true)
    ∷ ("license:read", true)
    ∷ ("license:create", true)
    ∷ ("license:update", true)
    ∷ ("license:delete", true)
    ∷ ("subscription:read", true)
    ∷ ("subscription:create", true)
    ∷ ("subscription:update", true)
    ∷ ("subscription:delete", true)
    ∷ ("device:read", true)
    ∷ ("device:update", true)
    ∷ ("device:delete", true)
    ∷ ("stats:read", true)
    ∷ ("export:read", true)
    ∷ ("audit:read", true)
    ∷ ("backup:read", true)
    ∷ ("backup:update", true)
    ∷ ("proxy_credential:read", true)
    ∷ ("proxy_credential:create", true)
    ∷ ("proxy_credential:update", true)
    ∷ ("proxy_credential:delete", true)
    ∷ ("pricing:read", true)
    ∷ ("pricing:create", true)
    ∷ ("pricing:update", true)
    ∷ ("pricing:delete", true)
    ∷ ("credit:read", true)
    ∷ ("credit:update", true)
    ∷ []

abbrev pub developer_permissions : Permissions
developer_permissions =
    ("tenant:read", true)
    ∷ ("tenant:update", false)
    ∷ ("tenant:delete", false)
    ∷ ("member:read", true)
    ∷ ("member:invite", false)
    ∷ ("member:update", false)
    ∷ ("member:delete", false)
    ∷ ("app:read", true)
    ∷ ("app:create", true)
    ∷ ("app:update", true)
    ∷ ("app:delete", false)
    ∷ ("customer:read", true)
    ∷ ("customer:create", true)
    ∷ ("customer:update", true)
    ∷ ("customer:delete", false)
    ∷ ("license:read", true)
    ∷ ("license:create", true)
    ∷ ("license:update", true)
    ∷ ("license:delete", true)
    ∷ ("subscription:read", true)
    ∷ ("subscription:create", true)
    ∷ ("subscription:update", true)
    ∷ ("subscription:delete", true)
    ∷ ("device:read", true)
    ∷ ("device:update", true)
    ∷ ("device:delete", true)
    ∷ ("stats:read", true)
    ∷ ("export:read", true)
    ∷ ("audit:read", false)
    ∷ ("backup:read", false)
    ∷ ("backup:update", false)
    ∷ ("proxy_credential:read", false)
    ∷ ("proxy_credential:create", false)
    ∷ ("proxy_credential:update", false)
    ∷ ("proxy_credential:delete", false)
    ∷ ("pricing:read", false)
    ∷ ("pricing:create", false)
    ∷ ("pricing:update", false)
    ∷ ("pricing:delete", false)
    ∷ ("credit:read", false)
    ∷ ("credit:update", false)
    ∷ []

abbrev pub viewer_permissions : Permissions
viewer_permissions =
    ("tenant:read", true)
    ∷ ("tenant:update", false)
    ∷ ("tenant:delete", false)
    ∷ ("member:read", true)
    ∷ ("member:invite", false)
    ∷ ("member:update", false)
    ∷ ("member:delete", false)
    ∷ ("app:read", true)
    ∷ ("app:create", false)
    ∷ ("app:update", false)
    ∷ ("app:delete", false)
    ∷ ("customer:read", true)
    ∷ ("customer:create", false)
    ∷ ("customer:update", false)
    ∷ ("customer:delete", false)
    ∷ ("license:read", true)
    ∷ ("license:create", false)
    ∷ ("license:update", false)
    ∷ ("license:delete", false)
    ∷ ("subscription:read", true)
    ∷ ("subscription:create", false)
    ∷ ("subscription:update", false)
    ∷ ("subscription:delete", false)
    ∷ ("device:read", true)
    ∷ ("device:update", false)
    ∷ ("device:delete", false)
    ∷ ("stats:read", true)
    ∷ ("export:read", false)
    ∷ ("audit:read", false)
    ∷ ("backup:read", false)
    ∷ ("backup:update", false)
    ∷ ("proxy_credential:read", false)
    ∷ ("proxy_credential:create", false)
    ∷ ("proxy_credential:update", false)
    ∷ ("proxy_credential:delete", false)
    ∷ ("pricing:read", false)
    ∷ ("pricing:create", false)
    ∷ ("pricing:update", false)
    ∷ ("pricing:delete", false)
    ∷ ("credit:read", false)
    ∷ ("credit:update", false)
    ∷ []

-- `RolePermissions`.
abbrev pub role_permissions : TeamMemberRole → Permissions
role_permissions owner = owner_permissions
role_permissions admin = admin_permissions
role_permissions developer = developer_permissions
role_permissions viewer = viewer_permissions

-- A key that is not in the map gives `false`.
unfoldable pub lookup : String → Permissions → Bool
lookup p [] = false
lookup p ((k, allowed) ∷ ps) = if str_eq k p then allowed else lookup p ps

-- `HasPermission`.
unfoldable pub has_permission : TeamMemberRole → String → Bool
has_permission r p = lookup p (role_permissions r)

unfoldable pub is_owner : TeamMemberRole → Bool
is_owner owner = true
is_owner _ = false

-- `IsAdmin`.
unfoldable pub is_admin : TeamMemberRole → Bool
is_admin owner = true
is_admin admin = true
is_admin _ = false

unfoldable pub can_manage_members : TeamMemberRole → Bool
can_manage_members owner = true
can_manage_members admin = true
can_manage_members _ = false

unfoldable pub can_manage_resources : TeamMemberRole → Bool
can_manage_resources owner = true
can_manage_resources admin = true
can_manage_resources developer = true
can_manage_resources viewer = false
