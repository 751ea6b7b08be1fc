-- ===== src/Access/Roles.antt =====
-- The administrator roles of src/server/api/store.ts and src/server/api/role-policy.ts. The advisory
-- lock of the three operations makes each of them one step.
use openvac_web.Prelude.{
  ℕ, String, Bool, true, false, not, ◌&&◌, ◌||◌, Option, none, some, List, [], ◌∷◌, str_eq, ltb,
  if◌then◌else◌, length, every, any, select, first, Tx, ◌>>=◌, ◌>>◌, pure, gets, ok, err,
}
use openvac_web.Quota.Types.{AccountRow}

pub data AdminRole : Type 0 where
  owner admin knowledge_editor support analyst : AdminRole

unfoldable pub same_role : AdminRole → AdminRole → Bool
same_role owner owner = true
same_role admin admin = true
same_role knowledge_editor knowledge_editor = true
same_role support support = true
same_role analyst analyst = true
same_role _ _ = false

-- A row of `admin_role`; a user has one at most.
pub record AdminRoleRow : Type 0 where
  pub user_id : String
  pub role : AdminRole
  pub created_by : String
  pub created_at : ℕ

pub data RoleAction : Type 0 where
  grant_action revoke_action replace_action : RoleAction

-- A row of `audit_log`.
pub record AuditRow : Type 0 where
  pub actor_id : String
  pub action : RoleAction
  pub target_user_id : String
  pub before : Option AdminRole
  pub next : Option AdminRole

pub record RoleDatabase : Type 0 where
  pub accounts : List AccountRow
  pub roles : List AdminRoleRow
  pub audits : List AuditRow

-- The codes of `ApiError`.
pub data RoleError : Type 0 where
  forbidden owner_protected admin_protected admin_role_conflict : RoleError
  account_deletion_in_progress admin_role_already_assigned admin_role_changed : RoleError
  last_owner_self_removal_forbidden last_owner_required : RoleError

abbrev pub RoleTx : Type 0 → Type 0
RoleTx A = Tx RoleDatabase RoleError A

unfoldable pub roles_of : String → List AdminRoleRow → List AdminRoleRow
roles_of user_id rows = select (λ r. str_eq r.user_id user_id) rows

-- The one role among rows; two different ones are a conflict.
unfoldable pub effective_admin_role : List AdminRoleRow → RoleTx (Option AdminRole)
unfolding same_role
effective_admin_role [] db = ok (none, db)
effective_admin_role (r ∷ rs) db =
    if every (λ other. same_role r.role other.role) rs
    then ok (some r.role, db)
    else err admin_role_conflict

unfoldable pub assert_admin_role_mutation_allowed : AdminRole → AdminRole → RoleTx (Unit {0})
assert_admin_role_mutation_allowed owner target db = ok (tt, db)
assert_admin_role_mutation_allowed admin owner db = err owner_protected
assert_admin_role_mutation_allowed admin admin db = err admin_protected
assert_admin_role_mutation_allowed admin _ db = ok (tt, db)
assert_admin_role_mutation_allowed _ _ db = err forbidden

-- The actor's role, which must be there.
unfoldable pub actor_role : String → RoleTx AdminRole
unfolding roles_of effective_admin_role
actor_role actor_id = do
  found ← λ db. effective_admin_role (roles_of actor_id db.roles) db
  elim found [ none ↦ λ db. err forbidden | some role ↦ pure role ]

unfoldable pub owner_count : List AdminRoleRow → ℕ
unfolding same_role
owner_count rows = length (select (λ r. same_role r.role owner) rows)

unfoldable pub assert_owner_role_revocation_allowed :
    AdminRole → ℕ → String → String → RoleTx (Unit {0})
unfolding same_role
assert_owner_role_revocation_allowed role owners target_user_id actor_user_id db =
    if not (same_role role owner) || ltb 1 owners
    then ok (tt, db)
    else if str_eq target_user_id actor_user_id
    then err last_owner_self_removal_forbidden
    else err last_owner_required

unfoldable pub write_audit :
    String → RoleAction → String → Option AdminRole → Option AdminRole → RoleDatabase → RoleDatabase
write_audit actor_id action target_user_id before next db = record db {
  audits =
      record {
        actor_id = actor_id;
        action = action;
        target_user_id = target_user_id;
        before = before;
        next = next;
      }
      ∷ db.audits;
}

-- The insert of `grantAdminRole`, which does nothing on a conflict.
unfoldable pub insert_role : String → AdminRole → String → ℕ → RoleTx (Option AdminRoleRow)
unfolding write_audit
insert_role user_id role actor_id now db =
    let row : AdminRoleRow = record {
      user_id = user_id;
      role = role;
      created_by = actor_id;
      created_at = now;
    } in
    if any (λ r. str_eq r.user_id user_id) db.roles
    then err admin_role_already_assigned
    else ok (
      some row,
      write_audit actor_id grant_action user_id none (some role)
          (record db { roles = row ∷ db.roles }),
    )

unfoldable pub grant_admin_role : String → AdminRole → String → ℕ → RoleTx (Option AdminRoleRow)
unfolding actor_role assert_admin_role_mutation_allowed insert_role
grant_admin_role user_id role actor_id now = do
  current_actor_role ← actor_role actor_id
  assert_admin_role_mutation_allowed current_actor_role role
  target ← gets (λ (db : RoleDatabase). first (λ a. str_eq a.id user_id) db.accounts)
  elim target [
    | none ↦ pure none
    | some account ↦ elim account.deletion_requested_at [
      | some at ↦ λ db. err account_deletion_in_progress
      | none ↦ insert_role user_id role actor_id now
    ]
  ]

unfoldable pub is_assignment : String → AdminRole → AdminRoleRow → Bool
unfolding same_role
is_assignment user_id role r = str_eq r.user_id user_id && same_role r.role role

-- `delete(adminRoles).where(userId, role)`, with its audit row.
unfoldable pub delete_role :
    String → AdminRole → String → AdminRoleRow → RoleTx (Option AdminRoleRow)
unfolding is_assignment write_audit
delete_role user_id role actor_id existing db = ok (
  some existing,
  write_audit actor_id revoke_action user_id (some role) none
      (record db { roles = select (λ r. not (is_assignment user_id role r)) db.roles }),
)

unfoldable pub revoke_existing :
    String → AdminRole → String → AdminRoleRow → RoleTx (Option AdminRoleRow)
unfolding owner_count assert_owner_role_revocation_allowed delete_role
revoke_existing user_id role actor_id existing = do
  owners ← gets (λ (db : RoleDatabase). owner_count db.roles)
  assert_owner_role_revocation_allowed role owners user_id actor_id
  delete_role user_id role actor_id existing

unfoldable pub revoke_admin_role : String → AdminRole → String → RoleTx (Option AdminRoleRow)
unfolding actor_role assert_admin_role_mutation_allowed is_assignment revoke_existing
revoke_admin_role user_id role actor_id = do
  current_actor_role ← actor_role actor_id
  assert_admin_role_mutation_allowed current_actor_role role
  existing ← gets (λ (db : RoleDatabase). first (is_assignment user_id role) db.roles)
  elim existing [ none ↦ pure none | some row ↦ revoke_existing user_id role actor_id row ]

-- `update(adminRoles).set(role, …).where(userId, expectedRole)`
unfoldable pub replace_rows :
    String → AdminRole → AdminRole → String → ℕ → List AdminRoleRow → List AdminRoleRow
unfolding is_assignment
replace_rows user_id expected_role role actor_id now [] = []
replace_rows user_id expected_role role actor_id now (r ∷ rs) =
    (if is_assignment user_id expected_role r
      then record r { role = role; created_by = actor_id; created_at = now }
      else r)
    ∷ replace_rows user_id expected_role role actor_id now rs

unfoldable pub replace_found :
    String → AdminRole → AdminRole → String → ℕ → RoleTx (Option AdminRoleRow)
unfolding replace_rows write_audit is_assignment
replace_found user_id expected_role role actor_id now db =
    elim (first (is_assignment user_id expected_role) db.roles) [
      | none ↦ err admin_role_changed
      | some r ↦ ok (
        some (record r { role = role; created_by = actor_id; created_at = now }),
        write_audit actor_id replace_action user_id (some expected_role) (some role)
            (record db { roles = replace_rows user_id expected_role role actor_id now db.roles }),
      )
    ]

-- The guard of the last owner stands only where an owner becomes something else.
unfoldable pub guard_owner : AdminRole → AdminRole → String → String → RoleTx (Unit {0})
unfolding same_role owner_count assert_owner_role_revocation_allowed
guard_owner expected_role role user_id actor_id db =
    if same_role expected_role owner && not (same_role role owner)
    then assert_owner_role_revocation_allowed expected_role (owner_count db.roles) user_id actor_id
        db
    else ok (tt, db)

unfoldable pub replace_admin_role :
    String → AdminRole → AdminRole → String → ℕ → RoleTx (Option AdminRoleRow)
unfolding actor_role assert_admin_role_mutation_allowed roles_of effective_admin_role same_role
    guard_owner replace_found
replace_admin_role user_id expected_role role actor_id now = do
  current_actor_role ← actor_role actor_id
  assert_admin_role_mutation_allowed current_actor_role expected_role
  assert_admin_role_mutation_allowed current_actor_role role
  current_target_role ← λ db. effective_admin_role (roles_of user_id db.roles) db
  elim current_target_role [
    | none ↦ pure none
    | some current ↦
        if same_role current expected_role
        then guard_owner expected_role role user_id actor_id
          >> replace_found user_id expected_role role actor_id now
        else λ db. err admin_role_changed
  ]
