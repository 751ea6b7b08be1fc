-- ===== src/Access/Authority.antt =====
-- Who may change which roles: `grantAdminRole`, `revokeAdminRole` and `replaceAdminRole` of
-- src/server/api/store.ts.
use openvac_web.Prelude.{String, ◌≡◌, Bool, ◌||◌, some, ok}
use openvac_web.Access.Roles.{
  AdminRole, same_role, RoleDatabase, roles_of, effective_admin_role, owner, admin,
}

abbrev pub is_protected : AdminRole → Bool
is_protected role = same_role role owner || same_role role admin

-- The actor has the role of an owner, and no other.
abbrev pub ActsAsOwner : String → RoleDatabase → Type 0
ActsAsOwner actor_id db = effective_admin_role (roles_of actor_id db.roles) db ≡ ok (some owner, db)
