-- ===== src/Attachments/Effects.antt =====
-- What the updates of `chat_storage_account` in src/server/chat-attachments and
-- src/worker/chat-storage.ts do to one user's counters.
use openvac_web.Prelude.{
  ℕ, ◌+◌, ◌-◌, String, ◌≡◌, refl, sym, subst, inl, inr, Bool, true, false, not, ◌&&◌, none, some,
  arith, str_eq, eq_iff, leb, if◌then◌else◌, Bool-cases, Option-cases, and-eq-true, Ensures, ok,
  err,
}
use openvac_web.Attachments.Types.{StorageAccount, StorageObjectType, ChatStorage, check_violation}
use openvac_web.Attachments.Rows.{
  is_null, find_account, set_account, move_bytes, give_back, queue_deletion,
}
use openvac_web.Attachments.Accounts.{used_of, reserved_of, WithinLimit, Sound, find_account-set}

-- The move of bytes applies to `u`.
abbrev pub concerns : String → String → ChatStorage → Bool
concerns v u s = str_eq v u && not (is_null (find_account v s.accounts))

-- The same rows.
pub record SameRows (s s' : ChatStorage) : Type 0 where
  pub attachments : s'.attachments ≡ s.attachments
  pub artifacts : s'.artifacts ≡ s.artifacts
  pub files : s'.files ≡ s.files

pub record Moved (v : String) (h a n : ℕ) (u : String) (s s' : ChatStorage) : Type 0 where
  pub rows : SameRows s s'
  pub used :
      used_of (find_account u s'.accounts)
      ≡ used_of (find_account u s.accounts) + (if concerns v u s then n else 0)
  pub reserved :
      reserved_of (find_account u s'.accounts) + (if concerns v u s then h else 0)
      ≡ reserved_of (find_account u s.accounts) + (if concerns v u s then a else 0)
  pub within : WithinLimit (find_account u s.accounts) → WithinLimit (find_account u s'.accounts)

-- A user without an account has no bytes.
pub no_account :
    (v u : String) (s : ChatStorage)
    → str_eq v u ≡ true
    → concerns v u s ≡ false
    → (used_of (find_account u s.accounts) ≡ 0) × (reserved_of (find_account u s.accounts) ≡ 0)
no_account v u s e h = elim (Option-cases (find_account v s.accounts)) [
  | inl missing ↦
      let m : find_account u s.accounts ≡ none = rw (← (eq_iff v u).0 e) missing in
      (rw m refl, rw m refl)
  | inr (a, found) ↦ absurd (ground (arith, found, e, h))
]

abbrev moved_account : ℕ → ℕ → ℕ → StorageAccount → StorageAccount
moved_account h a n b = record b {
  reserved_bytes = b.reserved_bytes + a - h;
  used_bytes = b.used_bytes + n;
}

abbrev moved : String → ℕ → ℕ → ℕ → ChatStorage → ChatStorage
moved v h a n s = record s { accounts = set_account v (moved_account h a n) s.accounts }

module _ (v : String) (h a n : ℕ) (u : String) (s : ChatStorage) where
  moved-Moved :
      {b : StorageAccount}
      → find_account v s.accounts ≡ some b
      → leb h b.reserved_bytes ≡ true
      → leb (b.used_bytes + n + (b.reserved_bytes + a - h)) b.limit_bytes ≡ true
      → Moved v h a n u s (moved v h a n s)
  moved-Moved found enough fits =
      let e = find_account-set v u (moved_account h a n) s.accounts (λ b. refl) in
      record {
        rows = record { attachments = refl; artifacts = refl; files = refl };
        used = ground (arith, e, found, eq_iff v u);
        reserved = ground (arith, e, found, eq_iff v u);
        within = λ w. ground (arith, e, found, eq_iff v u, w);
      }

  pub move_bytes-Ensures : Ensures (λ _ s'. Moved v h a n u s s') (move_bytes v h a n s)
  unfolding move_bytes
  move_bytes-Ensures = elim (Option-cases (find_account v s.accounts)) [
    | inl missing ↦
        let e : move_bytes v h a n s ≡ ok (tt, s) = rw (missing, move_bytes) refl in
        subst (Ensures (λ _ s'. Moved v h a n u s s')) (sym e) (record {
          rows = record { attachments = refl; artifacts = refl; files = refl };
          used = ground (arith, missing);
          reserved = ground (arith, missing);
          within = λ w. w;
        })
    | inr (b, found) ↦
        elim (Bool-cases (
          leb h b.reserved_bytes
          && leb (b.used_bytes + n + (b.reserved_bytes + a - h)) b.limit_bytes)) [
            | inl fits ↦
                let e : move_bytes v h a n s ≡ ok (tt, moved v h a n s) =
                  ground (arith, found, fits) in
                let (enough, room) = and-eq-true _ _ fits in
                subst (Ensures (λ _ s'. Moved v h a n u s s')) (sym e)
                  (moved-Moved found enough room)
            | inr refused ↦
                let e : move_bytes v h a n s ≡ err check_violation =
                  ground (arith, found, refused) in
                subst (Ensures (λ _ s'. Moved v h a n u s s')) (sym e) tt
          ]
  ]

-- `GREATEST` never goes below zero, so a user with fewer bytes than are given back keeps none.
pub record GivenBack (v : String) (n h : ℕ) (u : String) (s s' : ChatStorage) : Type 0 where
  pub rows : SameRows s s'
  pub used :
      used_of (find_account u s'.accounts)
      ≡ used_of (find_account u s.accounts) - (if str_eq v u then n else 0)
  pub reserved :
      reserved_of (find_account u s'.accounts)
      ≡ reserved_of (find_account u s.accounts) - (if str_eq v u then h else 0)
  pub within : WithinLimit (find_account u s.accounts) → WithinLimit (find_account u s'.accounts)

abbrev less : ℕ → ℕ → StorageAccount → StorageAccount
less n h b = record b { used_bytes = b.used_bytes - n; reserved_bytes = b.reserved_bytes - h }

pub give_back-GivenBack :
    (v : String) (n h : ℕ) (u : String) (s : ChatStorage) → GivenBack v n h u s (give_back v n h s)
unfolding give_back
give_back-GivenBack v n h u s =
    let e = find_account-set v u (less n h) s.accounts (λ b. refl) in
    record {
      rows = record { attachments = refl; artifacts = refl; files = refl };
      used = ground (arith, e, eq_iff v u);
      reserved = ground (arith, e, eq_iff v u);
      within = λ w. ground (arith, e, eq_iff v u, w);
    }

-- A job changes no row and no account.
pub queue_deletion_same :
    (v : String) (t : StorageObjectType) (id : ℕ) (key : String) (at now : ℕ) (s : ChatStorage)
    → SameRows s (queue_deletion v t id key at now s)
      × ((queue_deletion v t id key at now s).accounts ≡ s.accounts)
unfolding queue_deletion
queue_deletion_same v t id key at now s = (
  record { attachments = ground arith; artifacts = ground arith; files = ground arith },
  ground arith,
)

pub queue_deletion-Sound :
    (u v : String) (t : StorageObjectType) (id : ℕ) (key : String) (at now : ℕ) (s : ChatStorage)
    → Sound u s
    → Sound u (queue_deletion v t id key at now s)
queue_deletion-Sound u v t id key at now s h =
    let (same, accounts) = queue_deletion_same v t id key at now s in
    record {
      used = ground (arith, h.used, same.attachments, same.artifacts, same.files, accounts);
      held = ground (arith, h.held, same.attachments, same.artifacts, same.files, accounts);
      within = rw accounts h.within;
    }
