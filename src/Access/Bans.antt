-- ===== src/Access/Bans.antt =====
-- src/server/auth/ban-policy.ts and src/server/api/audit-policy.ts. A date that the code cannot read is none.
use openvac_web.Prelude.{
  ℕ, ◌<◌, ◌≡◌, refl, ◌↔◌, ◌⊎◌, inl, inr, Bool, true, false, not, Option, none, some, List, [], ◌∷◌,
  arith, ltb, if◌then◌else◌,
}
use openvac_web.Access.Roles.{AdminRole, analyst}

-- `banExpires`: absent, unreadable, or a time.
pub data BanExpiry : Type 0 where
  never unreadable : BanExpiry
  expires_at : ℕ → BanExpiry

pub record BanState : Type 0 where
  pub banned : Bool
  pub ban_expires : BanExpiry

pub data BanDisposition : Type 0 where
  allow block clear : BanDisposition

unfoldable pub ban_disposition : BanState → ℕ → BanDisposition
ban_disposition state now = if not state.banned then allow else elim state.ban_expires [
  | never ↦ block
  | unreadable ↦ block
  | expires_at at ↦ if ltb now at then block else clear
]

unfoldable pub is_effective_ban : BanState → ℕ → Bool
unfolding ban_disposition
is_effective_ban state now = elim (ban_disposition state now) [ block ↦ true | _ ↦ false ]

-- The guard of a new session: it refuses, goes on, or lifts a ban that is over. A session that is
-- created without a context is not looked at.
unfoldable pub before_session : Bool → BanState → ℕ → Option BanState
unfolding ban_disposition
before_session has_context state now =
    if not has_context then some state else elim (ban_disposition state now) [
      | allow ↦ some state
      | clear ↦ some (record { banned = false; ban_expires = never })
      | block ↦ none
    ]

pub data AuditField : Type 0 where
  action_field target_type_field target_id_field : AuditField

unfoldable pub audit_log_read_policy : AdminRole → Bool × List AuditField
audit_log_read_policy analyst = (true, action_field ∷ target_type_field ∷ [])
audit_log_read_policy _ = (false, action_field ∷ target_type_field ∷ target_id_field ∷ [])

-- A ban is in force: it is there, and has no end that the code can read, or one still to come.
abbrev pub InForce : BanState → ℕ → Type 0
InForce state now =
    (state.banned ≡ true)
    × ((state.ban_expires ≡ never)
        ⊎ (state.ban_expires ≡ unreadable)
        ⊎ ((at : ℕ) × (state.ban_expires ≡ expires_at at) × (now < at)))

refusal :
    (state : BanState) (now : ℕ)
    → (before_session true state now ≡ none) ↔ (is_effective_ban state now ≡ true)
unfolding before_session is_effective_ban ban_disposition
refusal state now = ground arith

blocked_iff :
    (b : Bool) (x : BanExpiry) (now : ℕ)
    → (is_effective_ban (record { banned = b; ban_expires = x }) now ≡ true)
      ↔ InForce (record { banned = b; ban_expires = x }) now
unfolding is_effective_ban ban_disposition
blocked_iff false x now = (λ h. absurd (cc), λ k. absurd (cc (k.0)))
blocked_iff true never now = (λ h. (refl, inl refl), λ k. refl)
blocked_iff true unreadable now = (λ h. (refl, inr (inl refl)), λ k. refl)
blocked_iff true (expires_at at) now = (
  λ h. (refl, inr (inr (at, refl, ground (arith, h)))),
  λ k. elim (k.1) [
    | inl no_end ↦ absurd (cc)
    | inr (inl odd) ↦ absurd (cc)
    | inr (inr (end, same, later)) ↦ ground (arith, same, later)
  ],
)

-- A session that is created in a request is refused exactly while a ban of its account is in force,
-- which is what `isEffectiveBan` says too; a ban whose time has come is lifted then, and from then on
-- no time brings it back. Without a context a session opens whatever the ban is, and changes nothing.
pub session_lifts_ban :
    (state : BanState) (now : ℕ)
    → ((before_session true state now ≡ none) ↔ InForce state now)
      × ((is_effective_ban state now ≡ true) ↔ InForce state now)
      × ((opened : BanState) (later : ℕ)
          → before_session true state now ≡ some opened
          → (is_effective_ban opened later ≡ false) × (ban_disposition opened later ≡ allow))
      × (before_session false state now ≡ some state)
unfolding before_session is_effective_ban ban_disposition
session_lifts_ban state now =
    let in_force = blocked_iff state.banned state.ban_expires now in
    (
      (λ h. in_force.0 ((refusal state now).0 h), λ k. (refusal state now).1 (in_force.1 k)),
      in_force,
      λ opened later e. ground (arith, e),
      refl,
    )
