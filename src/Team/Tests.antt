-- ===== src/Team/Tests.antt =====
-- Permissions of concrete roles.
use license_server_ai.Base.{◌≡◌, refl, true}
use license_server_ai.Team.Roles.{developer, owner, has_permission, lookup}
use license_server_ai.Team.Inclusion.{has_permission-rank}

has_permission-rank_example : has_permission owner "license:create" ≡ true
unfolding has_permission lookup
has_permission-rank_example = has_permission-rank developer owner "license:create" refl refl
