-- ===== src/Access/Owners.antt =====
-- There is always an owner, through every operation on roles of src/server/api/store.ts.
use openvac_web.Prelude.{
  ℕ, ◌+◌, ◌≤◌, ◌<◌, String, ◌≡◌, refl, subst, inl, inr, Bool, true, false, not, ◌&&◌, List, [], ◌∷◌,
  arith, str_eq, eq_iff, if◌then◌else◌, Bool-cases, Option-cases, and-eq-true, any, select, first,
  All, Ensures,
}
use openvac_web.Access.Roles.{
  AdminRole, same_role, AdminRoleRow, RoleDatabase, owner_count, write_audit, insert_role,
  is_assignment, delete_role, replace_rows, replace_found, owner,
}

-- No user has two roles: the unique index of the table.
abbrev pub OneRole : List AdminRoleRow → Type 0
OneRole [] = Unit
OneRole (r ∷ rs) = All (λ o. str_eq o.user_id r.user_id ≡ false) rs × OneRole rs

pub record IsOwned (db : RoleDatabase) : Type 0 where
  pub one_role : OneRole db.roles
  pub has_owner : 1 ≤ owner_count db.roles

abbrev Absent : String → List AdminRoleRow → Type 0
Absent user_id rows = All (λ o. str_eq o.user_id user_id ≡ false) rows

delete-Absent :
    (user_id : String) (role : AdminRole) (rows : List AdminRoleRow)
    → Absent user_id rows
    → select (λ r. not (is_assignment user_id role r)) rows ≡ rows
unfolding is_assignment
delete-Absent user_id role [] k = refl
delete-Absent user_id role (r ∷ rs) k = ground (arith, delete-Absent user_id role rs k.1)

replace-Absent :
    (user_id : String) (expected role : AdminRole) (actor_id : String) (now : ℕ)
    (rows : List AdminRoleRow)
    → Absent user_id rows
    → replace_rows user_id expected role actor_id now rows ≡ rows
unfolding replace_rows is_assignment
replace-Absent user_id expected role actor_id now [] k = refl
replace-Absent user_id expected role actor_id now (r ∷ rs) k =
    ground (arith, replace-Absent user_id expected role actor_id now rs k.1)

Absent-after :
    (user_id : String) (r : AdminRoleRow) (rs : List AdminRoleRow)
    → str_eq r.user_id user_id ≡ true
    → All (λ o. str_eq o.user_id r.user_id ≡ false) rs
    → Absent user_id rs
Absent-after user_id r rs e k = subst (λ u. Absent u rs) ((eq_iff r.user_id user_id).0 e) k

abbrev owner_one : AdminRole → ℕ
owner_one role = if same_role role owner then 1 else 0

same_role-owner : (a b : AdminRole) → same_role a b ≡ true → same_role a owner ≡ same_role b owner
unfolding same_role
same_role-owner a b e = ground (arith, e)

owner_count-cons :
    (r : AdminRoleRow) (rs : List AdminRoleRow)
    → owner_count (r ∷ rs) ≡ owner_one r.role + owner_count rs
unfolding owner_count
owner_count-cons r rs = ground arith

assignment_parts :
    (user_id : String) (role : AdminRole) (r : AdminRoleRow)
    → is_assignment user_id role r ≡ true
    → (str_eq r.user_id user_id ≡ true) × (same_role r.role role ≡ true)
unfolding is_assignment
assignment_parts user_id role r e = and-eq-true (str_eq r.user_id user_id) (same_role r.role role) e

-- One owner at most is deleted, and none with another role.
count_delete :
    (user_id : String) (role : AdminRole) (rows : List AdminRoleRow)
    → OneRole rows
    → owner_count rows
      ≤ owner_count (select (λ r. not (is_assignment user_id role r)) rows) + owner_one role
count_delete user_id role [] k = omega arith
count_delete user_id role (r ∷ rs) k = elim (Bool-cases (is_assignment user_id role r)) [
  | inl hit ↦
      let (own, same) = assignment_parts user_id role r hit in
      let kept = delete-Absent user_id role rs (Absent-after user_id r rs own k.0) in
      rw (hit, kept, owner_count-cons r rs, same_role-owner r.role role same) (omega arith)
  | inr miss ↦
      let rest = select (λ x. not (is_assignment user_id role x)) rs in
      rw (miss, owner_count-cons r rs, owner_count-cons r rest)
        (omega (arith, count_delete user_id role rs k.1))
]

-- One owner at most becomes something else, and an update to owner takes none away.
count_replace :
    (user_id : String) (expected role : AdminRole) (actor_id : String) (now : ℕ)
    (rows : List AdminRoleRow)
    → OneRole rows
    → owner_count rows
      ≤ owner_count (replace_rows user_id expected role actor_id now rows)
        + (if same_role expected owner && not (same_role role owner) then 1 else 0)
unfolding replace_rows
count_replace user_id expected role actor_id now [] k = omega arith
count_replace user_id expected role actor_id now (r ∷ rs) k =
    elim (Bool-cases (is_assignment user_id expected r)) [
      | inl hit ↦
          let (own, same) = assignment_parts user_id expected r hit in
          let kept =
            replace-Absent user_id expected role actor_id now rs
              (Absent-after user_id r rs own k.0) in
          let new : AdminRoleRow = record r {
            role = role;
            created_by = actor_id;
            created_at = now;
          } in
          rw
            (
              hit,
              kept,
              owner_count-cons r rs,
              owner_count-cons new rs,
              same_role-owner r.role expected same,
            )
            (ground (arith))
      | inr miss ↦
          let rest = replace_rows user_id expected role actor_id now rs in
          rw (miss, owner_count-cons r rs, owner_count-cons r rest)
            (omega (arith, count_replace user_id expected role actor_id now rs k.1))
    ]

All-select :
    (P : AdminRoleRow → Type 0) (p : AdminRoleRow → Bool) (xs : List AdminRoleRow)
    → All P xs
    → All P (select p xs)
All-select P p [] k = tt
All-select P p (x ∷ xs) k = ground (arith, All-select P p xs k.1)

OneRole-select :
    (p : AdminRoleRow → Bool) (rows : List AdminRoleRow) → OneRole rows → OneRole (select p rows)
OneRole-select p [] k = tt
OneRole-select p (r ∷ rs) k =
    let kept = All-select (λ o. str_eq o.user_id r.user_id ≡ false) p rs k.0 in
    let rest = OneRole-select p rs k.1 in
    elim (Bool-cases (p r)) [ inl hit ↦ rw hit (kept, rest) | inr miss ↦ rw miss rest ]

Absent-replace :
    (id user_id : String) (expected role : AdminRole) (actor_id : String) (now : ℕ)
    (rows : List AdminRoleRow)
    → Absent id rows
    → Absent id (replace_rows user_id expected role actor_id now rows)
unfolding replace_rows
Absent-replace id user_id expected role actor_id now [] k = tt
Absent-replace id user_id expected role actor_id now (r ∷ rs) k =
    ground (arith, Absent-replace id user_id expected role actor_id now rs k.1)

OneRole-replace :
    (user_id : String) (expected role : AdminRole) (actor_id : String) (now : ℕ)
    (rows : List AdminRoleRow)
    → OneRole rows
    → OneRole (replace_rows user_id expected role actor_id now rows)
unfolding replace_rows
OneRole-replace user_id expected role actor_id now [] k = tt
OneRole-replace user_id expected role actor_id now (r ∷ rs) k =
    let others = Absent-replace r.user_id user_id expected role actor_id now rs k.0 in
    let rest = OneRole-replace user_id expected role actor_id now rs k.1 in
    elim (Bool-cases (is_assignment user_id expected r)) [
      | inl hit ↦ rw hit (others, rest)
      | inr miss ↦ rw miss (others, rest)
    ]

Absent-any :
    (user_id : String) (rows : List AdminRoleRow)
    → any (λ r. str_eq r.user_id user_id) rows ≡ false
    → Absent user_id rows
Absent-any user_id [] e = tt
Absent-any user_id (r ∷ rs) e = ground (arith, e, Absent-any user_id rs)

pub insert_role-IsOwned :
    (user_id : String) (role : AdminRole) (actor_id : String) (now : ℕ) (db : RoleDatabase)
    → IsOwned db
    → Ensures (λ _ s. IsOwned s) (insert_role user_id role actor_id now db)
unfolding insert_role write_audit
insert_role-IsOwned user_id role actor_id now db v =
    elim (Bool-cases (any (λ r. str_eq r.user_id user_id) db.roles)) [
      | inl taken ↦ rw (taken, Ensures) tt
      | inr free ↦
          let row : AdminRoleRow = record {
            user_id = user_id;
            role = role;
            created_by = actor_id;
            created_at = now;
          } in
          let one_role : OneRole (row ∷ db.roles) =
            (Absent-any user_id db.roles free, v.one_role) in
          let has_owner : 1 ≤ owner_count (row ∷ db.roles) =
            rw (owner_count-cons row db.roles) (omega (arith, v.has_owner)) in
          rw (free, Ensures) (record { one_role = one_role; has_owner = has_owner })
    ]

pub delete_role-IsOwned :
    (user_id : String) (role : AdminRole) (actor_id : String) (row : AdminRoleRow)
    (db : RoleDatabase)
    → IsOwned db
    → (same_role role owner ≡ true → 1 < owner_count db.roles)
    → Ensures (λ _ s. IsOwned s) (delete_role user_id role actor_id row db)
unfolding delete_role write_audit
delete_role-IsOwned user_id role actor_id row db v spare = record {
  one_role = OneRole-select (λ r. not (is_assignment user_id role r)) db.roles v.one_role;
  has_owner =
      let less = count_delete user_id role db.roles v.one_role in
      let one = v.has_owner in
      elim (Bool-cases (same_role role owner)) [
        | inl is_owner ↦ ground (arith, is_owner, spare is_owner, less)
        | inr other ↦ ground (arith, other, less, one)
      ];
}

pub replace_found-IsOwned :
    (user_id : String) (expected role : AdminRole) (actor_id : String) (now : ℕ) (db : RoleDatabase)
    → IsOwned db
    → ((same_role expected owner && not (same_role role owner)) ≡ true → 1 < owner_count db.roles)
    → Ensures (λ _ s. IsOwned s) (replace_found user_id expected role actor_id now db)
unfolding replace_found write_audit
replace_found-IsOwned user_id expected role actor_id now db v spare =
    let rows = replace_rows user_id expected role actor_id now db.roles in
    let one_role : OneRole rows =
      OneRole-replace user_id expected role actor_id now db.roles v.one_role in
    let less = count_replace user_id expected role actor_id now db.roles v.one_role in
    let one = v.has_owner in
    let has_owner : 1 ≤ owner_count rows =
      elim (Bool-cases (same_role expected owner && not (same_role role owner))) [
        | inl leaves ↦ ground (arith, leaves, spare leaves, less)
        | inr stays ↦ ground (arith, stays, less, one)
      ] in
    elim (Option-cases (first (is_assignment user_id expected) db.roles)) [
      | inl missing ↦ rw (missing, Ensures) tt
      | inr (r, found) ↦ rw (found, Ensures) (record { one_role = one_role; has_owner = has_owner })
    ]
