-- ===== src/Attachments/Distinct.antt =====
-- The rows of `chat_attachment` under their primary key, in a selection of the worker and after a
-- change of src/server/chat-attachments/repository.ts.
use openvac_web.Prelude.{
  ℕ, zero, suc, ◌≡◌, refl, subst, inl, inr, Bool, false, some, List, [], ◌∷◌, map, arith, ◌==◌,
  Bool-cases, select, insert_sorted, sort, All, All-insert_sorted, All-sort, take,
}
use openvac_web.Attachments.Rows.{find_attachment, set_attachment, delete_attachment}
use openvac_web.Attachments.Accounts.{DistinctIds}
use openvac_web.Attachments.Types.{AttachmentRow}

module _ (P : AttachmentRow → Type 0) where
  pub All-select :
      (p : AttachmentRow → Bool) (xs : List AttachmentRow) → All P xs → All P (select p xs)
  All-select p [] k = tt
  All-select p (x ∷ xs) k = ground (arith, k.0, All-select p xs k.1)

  pub All-take : (n : ℕ) (xs : List AttachmentRow) → All P xs → All P (take n xs)
  All-take zero xs k = tt
  All-take (suc n) [] k = tt
  All-take (suc n) (x ∷ xs) k = (k.0, All-take n xs k.1)

  pub All-delete : (id : ℕ) (xs : List AttachmentRow) → All P xs → All P (delete_attachment id xs)
  unfolding delete_attachment
  All-delete id [] k = tt
  All-delete id (x ∷ xs) k = ground (arith, k.0, All-delete id xs k.1)

  pub All-set :
      (id : ℕ) (change : AttachmentRow → AttachmentRow) (xs : List AttachmentRow)
      → ((r : AttachmentRow) → P r → P (change r))
      → All P xs
      → All P (set_attachment id change xs)
  unfolding set_attachment
  All-set id change [] h k = tt
  All-set id change (x ∷ xs) h k = ground (arith, h x k.0, k.0, All-set id change xs h k.1)

  pub All-map :
      (change : AttachmentRow → AttachmentRow) (xs : List AttachmentRow)
      → ((r : AttachmentRow) → P r → P (change r))
      → All P xs
      → All P (map change xs)
  All-map change [] h k = tt
  All-map change (x ∷ xs) h k = (h x k.0, All-map change xs h k.1)

  pub found-All :
      (id : ℕ) (rows : List AttachmentRow) {r : AttachmentRow}
      → find_attachment id rows ≡ some r
      → All P rows
      → P r
  unfolding find_attachment
  found-All id [] e k = absurd (ground arith)
  found-All id (x ∷ xs) {r} e k = elim (Bool-cases (x.id == id)) [
    | inl same ↦ subst P (ground (arith, same, e)) k.0
    | inr other ↦ found-All id xs (ground (arith, other, e)) k.1
  ]

pub find-delete :
    (id j : ℕ) (rows : List AttachmentRow)
    → (id == j) ≡ false
    → find_attachment j (delete_attachment id rows) ≡ find_attachment j rows
unfolding find_attachment delete_attachment
find-delete id j [] h = refl
find-delete id j (x ∷ xs) h = ground (arith, h, find-delete id j xs h)

-- A row apart from another one.
abbrev pub Apart : AttachmentRow → AttachmentRow → Type 0
Apart r q = (r.id == q.id) ≡ false

-- The rows of a selection stand in the table under their ids.
abbrev pub Standing : List AttachmentRow → List AttachmentRow → Type 0
Standing rows = All (λ (r : AttachmentRow). find_attachment r.id rows ≡ some r)

Standing-cons :
    (x : AttachmentRow) (rows picked : List AttachmentRow)
    → All (Apart x) picked
    → Standing rows picked
    → Standing (x ∷ rows) picked
unfolding find_attachment
Standing-cons x rows [] h k = tt
Standing-cons x rows (q ∷ qs) h k = (ground (arith, h.0, k.0), Standing-cons x rows qs h.1 k.1)

pub DistinctIds-Standing : (rows : List AttachmentRow) → DistinctIds rows → Standing rows rows
unfolding find_attachment
DistinctIds-Standing [] d = tt
DistinctIds-Standing (x ∷ xs) d =
    (ground arith, Standing-cons x xs xs d.0 (DistinctIds-Standing xs d.1))

pub DistinctIds-select :
    (p : AttachmentRow → Bool) (xs : List AttachmentRow)
    → DistinctIds xs
    → DistinctIds (select p xs)
DistinctIds-select p [] d = tt
DistinctIds-select p (x ∷ xs) d =
    ground (arith, All-select (Apart x) p xs d.0, DistinctIds-select p xs d.1)

pub DistinctIds-take : (n : ℕ) (xs : List AttachmentRow) → DistinctIds xs → DistinctIds (take n xs)
DistinctIds-take zero xs d = tt
DistinctIds-take (suc n) [] d = tt
DistinctIds-take (suc n) (x ∷ xs) d = (All-take (Apart x) n xs d.0, DistinctIds-take n xs d.1)

DistinctIds-insert_sorted :
    (le : AttachmentRow → AttachmentRow → Bool) (a : AttachmentRow) (xs : List AttachmentRow)
    → All (Apart a) xs
    → DistinctIds xs
    → DistinctIds (insert_sorted le a xs)
DistinctIds-insert_sorted le a [] h d = (tt, tt)
DistinctIds-insert_sorted le a (x ∷ xs) h d = elim (Bool-cases (le a x)) [
  | inl before ↦ rw before (h, d)
  | inr behind ↦ rw behind (
    All-insert_sorted (Apart x) le a xs (ground (arith, h.0)) d.0,
    DistinctIds-insert_sorted le a xs h.1 d.1,
  )
]

pub DistinctIds-sort :
    (le : AttachmentRow → AttachmentRow → Bool) (xs : List AttachmentRow)
    → DistinctIds xs
    → DistinctIds (sort le xs)
DistinctIds-sort le [] d = tt
DistinctIds-sort le (x ∷ xs) d =
    DistinctIds-insert_sorted le x (sort le xs) (All-sort (Apart x) le xs d.0)
      (DistinctIds-sort le xs d.1)

pub DistinctIds-delete :
    (id : ℕ) (xs : List AttachmentRow) → DistinctIds xs → DistinctIds (delete_attachment id xs)
unfolding delete_attachment
DistinctIds-delete id [] d = tt
DistinctIds-delete id (x ∷ xs) d =
    ground (arith, d.1, All-delete (Apart x) id xs d.0, DistinctIds-delete id xs d.1)

module _ (change : AttachmentRow → AttachmentRow)
    (same : (r : AttachmentRow) → (change r).id ≡ r.id) where
  pub DistinctIds-set :
      (id : ℕ) (xs : List AttachmentRow)
      → DistinctIds xs
      → DistinctIds (set_attachment id change xs)
  unfolding set_attachment
  DistinctIds-set id [] d = tt
  DistinctIds-set id (x ∷ xs) d = elim (Bool-cases (x.id == id)) [
    | inl here ↦ rw here (rw (same x) d.0, d.1)
    | inr there ↦
        rw there
          (All-set (Apart x) id change xs (λ r h. rw (same r) h) d.0, DistinctIds-set id xs d.1)
  ]

  pub DistinctIds-map : (xs : List AttachmentRow) → DistinctIds xs → DistinctIds (map change xs)
  DistinctIds-map [] d = tt
  DistinctIds-map (x ∷ xs) d =
      (rw (same x) (All-map (Apart x) change xs (λ r h. rw (same r) h) d.0), DistinctIds-map xs d.1)
