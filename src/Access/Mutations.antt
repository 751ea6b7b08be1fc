-- ===== src/Access/Mutations.antt =====
-- `grantAdminRole`, `revokeAdminRole` and `replaceAdminRole` of src/server/api/store.ts as steps.
use openvac_web.Prelude.{
  ℕ, ◌<◌, String, ◌≡◌, refl, sym, subst, inl, inr, true, not, ◌&&◌, List, [], ◌∷◌, arith, str_eq,
  Bool-cases, Option-cases, first, Result, ◌>>◌, after, Ensures, Ensures-bind, ok, err,
}
use openvac_web.Access.Roles.{
  AdminRole, same_role, AdminRoleRow, RoleDatabase, RoleError, roles_of, effective_admin_role,
  assert_admin_role_mutation_allowed, actor_role, owner_count, assert_owner_role_revocation_allowed,
  grant_admin_role, is_assignment, delete_role, revoke_existing, revoke_admin_role, replace_found,
  guard_owner, replace_admin_role, owner,
}
use openvac_web.Access.Owners.{
  IsOwned, insert_role-IsOwned, delete_role-IsOwned, replace_found-IsOwned,
}

effective-unchanged :
    (rows : List AdminRoleRow) (db : RoleDatabase)
    → Ensures (λ _ s. s ≡ db) (effective_admin_role rows db)
unfolding effective_admin_role
effective-unchanged [] db = refl
effective-unchanged (r ∷ rs) db = ground arith

actor_role-IsOwned :
    (actor_id : String) (db : RoleDatabase)
    → IsOwned db
    → Ensures (λ _ s. IsOwned s) (actor_role actor_id db)
unfolding actor_role
actor_role-IsOwned actor_id db v =
    Ensures-bind (λ _ s. s ≡ db) (λ _ s. IsOwned s)
      (λ x. effective_admin_role (roles_of actor_id x.roles) x) _ db
      (effective-unchanged (roles_of actor_id db.roles) db)
      λ found s _ e. elim (Option-cases found) [
        | inl missing ↦ rw (missing, Ensures) tt
        | inr (role, there) ↦ rw (there, Ensures) (rw e v)
      ]

allowed-IsOwned :
    (actor target : AdminRole) (db : RoleDatabase)
    → IsOwned db
    → Ensures (λ _ s. IsOwned s) (assert_admin_role_mutation_allowed actor target db)
unfolding assert_admin_role_mutation_allowed
allowed-IsOwned actor target db v = ground arith

grant-IsOwned :
    (user_id : String) (role : AdminRole) (actor_id : String) (now : ℕ) (db : RoleDatabase)
    → IsOwned db
    → Ensures (λ _ s. IsOwned s) (grant_admin_role user_id role actor_id now db)
unfolding grant_admin_role
grant-IsOwned user_id role actor_id now db v =
    Ensures-bind (λ _ s. IsOwned s) (λ _ s. IsOwned s) (actor_role actor_id) _ db
      (actor_role-IsOwned actor_id db v)
      λ actor s _ k.
        Ensures-bind (λ _ s. IsOwned s) (λ _ s. IsOwned s)
          (assert_admin_role_mutation_allowed actor role) _ s (allowed-IsOwned actor role s k)
          λ _ s' _ k'. elim (Option-cases (first (λ a. str_eq a.id user_id) s'.accounts)) [
            | inl missing ↦ rw (missing, Ensures) k'
            | inr (account, there) ↦ elim (Option-cases account.deletion_requested_at) [
              | inl staying ↦
                  rw (there, staying, Ensures) (insert_role-IsOwned user_id role actor_id now s' k')
              | inr (at, leaving) ↦ rw (there, leaving, Ensures) tt
            ]
          ]

revocable :
    (role : AdminRole) (user_id actor_id : String) (db : RoleDatabase)
    → Ensures
        (λ _ s. (s ≡ db) × (same_role role owner ≡ true → 1 < owner_count db.roles))
        (assert_owner_role_revocation_allowed role (owner_count db.roles) user_id actor_id db)
unfolding assert_owner_role_revocation_allowed
revocable role user_id actor_id db = ground arith

revoke_existing-IsOwned :
    (user_id : String) (role : AdminRole) (actor_id : String) (row : AdminRoleRow)
    (db : RoleDatabase)
    → IsOwned db
    → Ensures (λ _ s. IsOwned s) (revoke_existing user_id role actor_id row db)
unfolding revoke_existing
revoke_existing-IsOwned user_id role actor_id row db v =
    Ensures-bind (λ _ s. (s ≡ db) × (same_role role owner ≡ true → 1 < owner_count db.roles))
      (λ _ s. IsOwned s)
      (assert_owner_role_revocation_allowed role (owner_count db.roles) user_id actor_id) _ db
      (revocable role user_id actor_id db)
      λ _ s _ k.
        subst (λ x. Ensures (λ _ y. IsOwned y) (delete_role user_id role actor_id row x)) (sym k.0)
          (delete_role-IsOwned user_id role actor_id row db v k.1)

revoke-IsOwned :
    (user_id : String) (role : AdminRole) (actor_id : String) (db : RoleDatabase)
    → IsOwned db
    → Ensures (λ _ s. IsOwned s) (revoke_admin_role user_id role actor_id db)
unfolding revoke_admin_role
revoke-IsOwned user_id role actor_id db v =
    Ensures-bind (λ _ s. IsOwned s) (λ _ s. IsOwned s) (actor_role actor_id) _ db
      (actor_role-IsOwned actor_id db v)
      λ actor s _ k.
        Ensures-bind (λ _ s. IsOwned s) (λ _ s. IsOwned s)
          (assert_admin_role_mutation_allowed actor role) _ s (allowed-IsOwned actor role s k)
          λ _ s' _ k'. elim (Option-cases (first (is_assignment user_id role) s'.roles)) [
            | inl missing ↦ rw (missing, Ensures) k'
            | inr (row, there) ↦
                rw (there, Ensures) (revoke_existing-IsOwned user_id role actor_id row s' k')
          ]

guarded :
    (expected role : AdminRole) (user_id actor_id : String) (db : RoleDatabase)
    → Ensures
        (λ _ s.
          (s ≡ db)
          × ((same_role expected owner && not (same_role role owner)) ≡ true
              → 1 < owner_count db.roles))
        (guard_owner expected role user_id actor_id db)
unfolding guard_owner assert_owner_role_revocation_allowed
guarded expected role user_id actor_id db = ground arith

replace_guarded-IsOwned :
    (user_id : String) (expected role : AdminRole) (actor_id : String) (now : ℕ) (db : RoleDatabase)
    → IsOwned db
    → Ensures
        (λ _ s. IsOwned s)
        ((guard_owner expected role user_id actor_id
            >> replace_found user_id expected role actor_id now)
          db)
replace_guarded-IsOwned user_id expected role actor_id now db v =
    Ensures-bind
      (λ _ s.
        (s ≡ db)
        × ((same_role expected owner && not (same_role role owner)) ≡ true
            → 1 < owner_count db.roles))
      (λ _ s. IsOwned s) (guard_owner expected role user_id actor_id) _ db
      (guarded expected role user_id actor_id db)
      λ _ s _ k.
        subst (λ x. Ensures (λ _ y. IsOwned y) (replace_found user_id expected role actor_id now x))
          (sym k.0) (replace_found-IsOwned user_id expected role actor_id now db v k.1)

replace-IsOwned :
    (user_id : String) (expected role : AdminRole) (actor_id : String) (now : ℕ) (db : RoleDatabase)
    → IsOwned db
    → Ensures (λ _ s. IsOwned s) (replace_admin_role user_id expected role actor_id now db)
unfolding replace_admin_role
replace-IsOwned user_id expected role actor_id now db v =
    Ensures-bind (λ _ s. IsOwned s) (λ _ s. IsOwned s) (actor_role actor_id) _ db
      (actor_role-IsOwned actor_id db v)
      λ actor s _ k.
        Ensures-bind (λ _ s. IsOwned s) (λ _ s. IsOwned s)
          (assert_admin_role_mutation_allowed actor expected) _ s
          (allowed-IsOwned actor expected s k)
          λ _ s₁ _ k₁.
            Ensures-bind (λ _ s. IsOwned s) (λ _ s. IsOwned s)
              (assert_admin_role_mutation_allowed actor role) _ s₁
              (allowed-IsOwned actor role s₁ k₁)
              λ _ s₂ _ k₂.
                Ensures-bind (λ _ s. s ≡ s₂) (λ _ s. IsOwned s)
                  (λ x. effective_admin_role (roles_of user_id x.roles) x) _ s₂
                  (effective-unchanged (roles_of user_id s₂.roles) s₂)
                  λ current s₃ _ e. elim (Option-cases current) [
                    | inl missing ↦ rw (missing, Ensures) (rw e k₂)
                    | inr (c, there) ↦ elim (Bool-cases (same_role c expected)) [
                      | inr changed ↦ rw (there, changed, Ensures) tt
                      | inl same ↦
                          rw (there, same, Ensures)
                            (replace_guarded-IsOwned user_id expected role actor_id now s₃
                              (rw e k₂))
                    ]
                  ]

-- The mutations of roles, with their actors and their clock.
pub data RoleCall : Type 0 where
  grants : String → AdminRole → String → ℕ → RoleCall
  revokes : String → AdminRole → String → RoleCall
  replaces : String → AdminRole → AdminRole → String → ℕ → RoleCall

-- The database after a call, which is the one before it when the call throws.
unfoldable pub run_role_call : RoleCall → RoleDatabase → RoleDatabase
unfolding grant_admin_role revoke_admin_role replace_admin_role
run_role_call (grants user_id role actor_id now) db =
    after db (grant_admin_role user_id role actor_id now db)
run_role_call (revokes user_id role actor_id) db =
    after db (revoke_admin_role user_id role actor_id db)
run_role_call (replaces user_id expected role actor_id now) db =
    after db (replace_admin_role user_id expected role actor_id now db)

unfoldable pub run_role_calls : List RoleCall → RoleDatabase → RoleDatabase
unfolding run_role_call
run_role_calls [] db = db
run_role_calls (call ∷ calls) db = run_role_calls calls (run_role_call call db)

after-IsOwned :
    {A : Type 0} (db : RoleDatabase) (r : Result RoleError (A × RoleDatabase))
    → IsOwned db
    → Ensures (λ _ s. IsOwned s) r
    → IsOwned (after db r)
after-IsOwned db (ok (a, s)) v h = h
after-IsOwned db (err e) v h = v

run_role_call-IsOwned :
    (call : RoleCall) (db : RoleDatabase) → IsOwned db → IsOwned (run_role_call call db)
unfolding run_role_call
run_role_call-IsOwned (grants user_id role actor_id now) db v =
    after-IsOwned db _ v (grant-IsOwned user_id role actor_id now db v)
run_role_call-IsOwned (revokes user_id role actor_id) db v =
    after-IsOwned db _ v (revoke-IsOwned user_id role actor_id db v)
run_role_call-IsOwned (replaces user_id expected role actor_id now) db v =
    after-IsOwned db _ v (replace-IsOwned user_id expected role actor_id now db v)

-- From a database with an owner in which no user has two roles, any sequence of grants,
-- revocations and replacements by any actors, refused ones included, leads to such a database.
pub owner_remains :
    (calls : List RoleCall) (db : RoleDatabase) → IsOwned db → IsOwned (run_role_calls calls db)
unfolding run_role_calls
owner_remains [] db v = v
owner_remains (call ∷ calls) db v =
    owner_remains calls (run_role_call call db) (run_role_call-IsOwned call db v)
