-- ===== src/Access/Examples.antt =====
-- Roles and bans at concrete inputs.
use openvac_web.Prelude.{ℕ, ◌≡◌, ◌↔◌, true, false, none, some, List, [], ◌∷◌, arith}
use openvac_web.Access.Roles.{RoleDatabase, owner_count, owner, support}
use openvac_web.Access.Owners.{IsOwned}
use openvac_web.Access.Mutations.{
  RoleCall, run_role_calls, owner_remains, grants, revokes, replaces,
}
use openvac_web.Access.Bans.{
  BanState, ban_disposition, is_effective_ban, before_session, session_lifts_ban, InForce,
  expires_at, allow,
}

abbrev one_owner : RoleDatabase
one_owner = record {
  accounts =
      record { id = "ann"; deletion_requested_at = none }
      ∷ record { id = "bob"; deletion_requested_at = none }
      ∷ [];
  roles = record { user_id = "ann"; role = owner; created_by = "ann"; created_at = 1 } ∷ [];
  audits = [];
}

one_owner-IsOwned : IsOwned one_owner
unfolding owner_count
one_owner-IsOwned = record { one_role = (tt, tt); has_owner = omega arith }

abbrev changes : List RoleCall
changes =
    grants "bob" owner "ann" 2
    ∷ revokes "ann" owner "bob"
    ∷ replaces "bob" owner support "bob" 3
    ∷ []

owner_remains_example : IsOwned (run_role_calls changes one_owner)
owner_remains_example = owner_remains changes one_owner one_owner-IsOwned

abbrev short_ban : BanState
short_ban = record { banned = true; ban_expires = expires_at 5 }

session_lifts_ban_example :
    ((before_session true short_ban 7 ≡ none) ↔ InForce short_ban 7)
    × ((is_effective_ban short_ban 7 ≡ true) ↔ InForce short_ban 7)
    × ((opened : BanState) (later : ℕ)
        → before_session true short_ban 7 ≡ some opened
        → (is_effective_ban opened later ≡ false) × (ban_disposition opened later ≡ allow))
    × (before_session false short_ban 7 ≡ some short_ban)
session_lifts_ban_example = session_lifts_ban short_ban 7
