-- ===== src/Attachments/Leases.antt =====
-- The row that a write under a lease of src/worker/chat-storage.ts changes, and the rows that it leaves.
use openvac_web.Prelude.{
  ℕ, ◌≡◌, refl, ◌⊎◌, inl, inr, true, false, none, some, List, [], ◌∷◌, arith, ◌==◌, Bool-cases,
  Option-cases, ok, err,
}
use openvac_web.Attachments.Types.{AttachmentRow, ChatStorage, stale_lease}
use openvac_web.Attachments.Queue.{ParseJob, holds_lease, leased_update}
use openvac_web.Attachments.Rows.{find_attachment, set_attachment}

-- The row after the update of a held lease.
pub held_update :
    (job : ParseJob) (change : AttachmentRow → AttachmentRow) (s : ChatStorage) {r : AttachmentRow}
    → find_attachment job.id s.attachments ≡ some r
    → holds_lease job r ≡ true
    → leased_update job change s
      ≡ ok (tt, record s { attachments = set_attachment job.id change s.attachments })
unfolding leased_update
held_update job change s found held = ground (arith, found, held)

pub find-set :
    (id : ℕ) (change : AttachmentRow → AttachmentRow) (rows : List AttachmentRow)
    {r : AttachmentRow}
    → ((r : AttachmentRow) → (change r).id ≡ r.id)
    → find_attachment id rows ≡ some r
    → find_attachment id (set_attachment id change rows) ≡ some (change r)
unfolding find_attachment set_attachment
find-set id change [] same e = absurd (ground arith)
find-set id change (x ∷ xs) {r} same e =
    ground (arith, e, same x, find-set id change xs {r = r} same)

pub set-other :
    (id other : ℕ) (change : AttachmentRow → AttachmentRow) (rows : List AttachmentRow)
    → ((r : AttachmentRow) → (change r).id ≡ r.id)
    → (other == id) ≡ false
    → find_attachment other (set_attachment id change rows) ≡ find_attachment other rows
unfolding find_attachment set_attachment
set-other id other change [] same d = refl
set-other id other change (x ∷ xs) same d =
    ground (arith, d, same x, set-other id other change xs same d)

pub set-missing :
    (id : ℕ) (change : AttachmentRow → AttachmentRow) (rows : List AttachmentRow)
    → find_attachment id rows ≡ none
    → set_attachment id change rows ≡ rows
unfolding find_attachment set_attachment
set-missing id change [] e = refl
set-missing id change (x ∷ xs) e = ground (arith, e, set-missing id change xs)

pub set-same : (id : ℕ) (rows : List AttachmentRow) → set_attachment id (λ r. r) rows ≡ rows
unfolding set_attachment
set-same id [] = refl
set-same id (x ∷ xs) = ground (arith, set-same id xs)

pub update-cases :
    (job : ParseJob) (change : AttachmentRow → AttachmentRow) (s : ChatStorage)
    → (leased_update job change s ≡ err stale_lease)
      ⊎ ((r : AttachmentRow) × (find_attachment job.id s.attachments ≡ some r)
          × (holds_lease job r ≡ true)
          × (leased_update job change s
              ≡ ok (tt, record s { attachments = set_attachment job.id change s.attachments })))
unfolding leased_update
update-cases job change s = elim (Option-cases (find_attachment job.id s.attachments)) [
  | inl missing ↦ inl (ground (arith, missing))
  | inr (r, found) ↦ elim (Bool-cases (holds_lease job r)) [
    | inl held ↦ inr (r, found, held, held_update job change s found held)
    | inr free ↦ inl (ground (arith, found, free))
  ]
]
