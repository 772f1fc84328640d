-- ===== src/Team.antt =====
-- internal/model/team_member.go: roles and permissions.
pub mod Roles
pub mod Inclusion
mod Tests
