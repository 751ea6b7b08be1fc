-- ===== src/Attachments/Accounts.antt =====
-- What the counters of `chat_storage_account` in src/server/chat-attachments stand for, and what an
-- update of a row or of an account does to both sides.
use openvac_web.Prelude.{
  ℕ, ◌+◌, ◌≤◌, String, ◌≡◌, refl, Bool, false, not, ◌&&◌, ◌||◌, Option, none, some, List, [], ◌∷◌,
  map, arith, str_eq, eq_iff, ◌==◌, if◌then◌else◌, any, All,
}
use openvac_web.Runs.Storage.{ArtifactRow, ArtifactFileRow}
use openvac_web.Attachments.Types.{AttachmentRow, StorageAccount, ChatStorage}
use openvac_web.Attachments.Rows.{
  is_reserved, is_committed, is_null, find_attachment, set_attachment, delete_attachment,
  find_account, set_account,
}

abbrev pub total {ℓ} : {A : Type ℓ} → (A → ℕ) → List A → ℕ
total f [] = 0
total f (x ∷ xs) = f x + total f xs

-- `size_bytes ?? 0`
abbrev pub stored_size : AttachmentRow → ℕ
stored_size r = elim r.size_bytes [ none ↦ 0 | some n ↦ n ]

-- The bytes that a row stands for in its user's two counters.
abbrev pub used_by : String → AttachmentRow → ℕ
used_by u r = if str_eq r.user_id u && is_committed r.quota_state then stored_size r else 0

abbrev pub held_by : String → AttachmentRow → ℕ
held_by u r = if str_eq r.user_id u && is_reserved r.quota_state then r.declared_size_bytes else 0

-- A file belongs to the user of its artifact.
abbrev pub is_file_of : String → List ArtifactRow → ArtifactFileRow → Bool
is_file_of u artifacts f =
    any (λ (a : ArtifactRow). a.id == f.artifact_id && str_eq a.user_id u) artifacts

abbrev pub file_used_by : String → List ArtifactRow → ArtifactFileRow → ℕ
file_used_by u artifacts f =
    if is_file_of u artifacts f && is_committed f.quota_state then f.size_bytes else 0

abbrev pub file_held_by : String → List ArtifactRow → ArtifactFileRow → ℕ
file_held_by u artifacts f =
    if is_file_of u artifacts f && is_reserved f.quota_state then f.size_bytes else 0

abbrev pub used_total : String → ChatStorage → ℕ
used_total u s = total (used_by u) s.attachments + total (file_used_by u s.artifacts) s.files

abbrev pub held_total : String → ChatStorage → ℕ
held_total u s = total (held_by u) s.attachments + total (file_held_by u s.artifacts) s.files

abbrev pub used_of : Option StorageAccount → ℕ
used_of none = 0
used_of (some a) = a.used_bytes

abbrev pub reserved_of : Option StorageAccount → ℕ
reserved_of none = 0
reserved_of (some a) = a.reserved_bytes

abbrev pub WithinLimit : Option StorageAccount → Type 0
WithinLimit none = Unit {0}
WithinLimit (some a) = a.used_bytes + a.reserved_bytes ≤ a.limit_bytes

-- The counters of a user are exactly the bytes of the rows, and stay within the limit.
pub record Sound (u : String) (s : ChatStorage) : Type 0 where
  pub used : used_of (find_account u s.accounts) ≡ used_total u s
  pub held : reserved_of (find_account u s.accounts) ≡ held_total u s
  pub within : WithinLimit (find_account u s.accounts)

-- A committed row has its size, as the check `chat_attachment_quota_size_valid` says.
abbrev pub sized : AttachmentRow → Bool
sized r = not (is_committed r.quota_state) || not (is_null r.size_bytes)

-- `id` is the primary key.
abbrev pub DistinctIds : List AttachmentRow → Type 0
DistinctIds [] = Unit {0}
DistinctIds (r ∷ rs) = All (λ (q : AttachmentRow). (r.id == q.id) ≡ false) rs × DistinctIds rs

module _ (f : AttachmentRow → ℕ) where
  pub total-set :
      (id : ℕ) (change : AttachmentRow → AttachmentRow) (rows : List AttachmentRow)
      {r : AttachmentRow}
      → find_attachment id rows ≡ some r
      → total f (set_attachment id change rows) + f r ≡ total f rows + f (change r)
  unfolding find_attachment set_attachment
  total-set id change [] h = absurd (ground arith)
  total-set id change (x ∷ xs) {r} h = ground (arith, total-set id change xs {r = r})

  pub total-set_same :
      (id : ℕ) (change : AttachmentRow → AttachmentRow) (rows : List AttachmentRow)
      → ((r : AttachmentRow) → f (change r) ≡ f r)
      → total f (set_attachment id change rows) ≡ total f rows
  unfolding set_attachment
  total-set_same id change [] h = refl
  total-set_same id change (x ∷ xs) h = ground (arith, h x, total-set_same id change xs h)

  pub total-map_same :
      (change : AttachmentRow → AttachmentRow) (rows : List AttachmentRow)
      → ((r : AttachmentRow) → f (change r) ≡ f r)
      → total f (map change rows) ≡ total f rows
  total-map_same change [] h = refl
  total-map_same change (x ∷ xs) h = omega (arith, h x, total-map_same change xs h)

  pub total-delete :
      (id : ℕ) (rows : List AttachmentRow) {r : AttachmentRow}
      → find_attachment id rows ≡ some r
      → total f (delete_attachment id rows) + f r ≡ total f rows
  unfolding find_attachment delete_attachment
  total-delete id [] h = absurd (ground arith)
  total-delete id (x ∷ xs) {r} h = ground (arith, total-delete id xs {r = r})

abbrev pub changed :
    (StorageAccount → StorageAccount) → Option StorageAccount → Option StorageAccount
changed change none = none
changed change (some a) = some (change a)

-- The account that an update leaves, for every user.
pub find_account-set :
    (v u : String) (change : StorageAccount → StorageAccount) (accounts : List StorageAccount)
    → ((a : StorageAccount) → (change a).user_id ≡ a.user_id)
    → find_account u (set_account v change accounts)
      ≡ (if str_eq v u then changed change (find_account v accounts) else find_account u accounts)
unfolding find_account set_account
find_account-set v u change [] h = ground arith
find_account-set v u change (a ∷ rest) h = ground (
  arith,
  h a,
  eq_iff v u,
  eq_iff a.user_id v,
  eq_iff a.user_id u,
  find_account-set v u change rest h,
)
