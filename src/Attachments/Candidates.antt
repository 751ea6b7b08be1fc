-- ===== src/Attachments/Candidates.antt =====
-- The row that `ORDER BY parse_run_at, created_at LIMIT 1` of src/worker/chat-storage.ts picks.
use openvac_web.Prelude.{
  ℕ, ◌≡◌, subst, inl, inr, Bool, true, false, not, ◌&&◌, ◌||◌, none, some, List, [], ◌∷◌, arith,
  ◌==◌, Bool-cases, any, select, insert_sorted, sort, All, All-insert_sorted, All-sort,
}
use openvac_web.Attachments.Queue.{is_claimable, parse_order, head, parse_candidate}
use openvac_web.Attachments.Types.{AttachmentRow}

-- The rows that a claim may take.
abbrev pub open_to : ℕ → List ℕ → AttachmentRow → Bool
open_to now locked r = is_claimable now r && not (any (λ n. n == r.id) locked)

module _ (le : AttachmentRow → AttachmentRow → Bool) (le_refl : (a : AttachmentRow) → le a a ≡ true)
    (le_total : (a b : AttachmentRow) → le a b ≡ false → le b a ≡ true)
    (le_trans : (a b c : AttachmentRow) → le a b ≡ true → le b c ≡ true → le a c ≡ true) where
  abbrev Least : AttachmentRow → List AttachmentRow → Type 0
  Least x = All (λ (q : AttachmentRow). le x q ≡ true)

  -- The head comes before all.
  abbrev Led : List AttachmentRow → Type 0
  Led [] = Unit {0}
  Led (x ∷ xs) = Least x (x ∷ xs)

  Least-trans :
      (a x : AttachmentRow) (xs : List AttachmentRow) → le a x ≡ true → Least x xs → Least a xs
  Least-trans a x [] h k = tt
  Least-trans a x (q ∷ qs) h k = (le_trans a x q h k.0, Least-trans a x qs h k.1)

  insert_sorted-Led :
      (a : AttachmentRow) (xs : List AttachmentRow) → Led xs → Led (insert_sorted le a xs)
  insert_sorted-Led a [] k = (le_refl a, tt)
  insert_sorted-Led a (x ∷ xs) k = elim (Bool-cases (le a x)) [
    | inl before ↦ rw before (le_refl a, (before, Least-trans a x xs before k.1))
    | inr behind ↦ rw behind (
      k.0,
      All-insert_sorted (λ (q : AttachmentRow). le x q ≡ true) le a xs (le_total a x behind) k.1,
    )
  ]

  sort-Led : (xs : List AttachmentRow) → Led (sort le xs)
  sort-Led [] = tt
  sort-Led (x ∷ xs) = insert_sorted-Led x (sort le xs) (sort-Led xs)

  unsorted_one :
      (P : AttachmentRow → Type 0) (a : AttachmentRow) (xs : List AttachmentRow)
      → All P (insert_sorted le a xs)
      → P a × All P xs
  unsorted_one P a [] k = k
  unsorted_one P a (x ∷ xs) k = elim (Bool-cases (le a x)) [
    | inl before ↦ rw before at k
    | inr behind ↦
        let k' : P x × All P (insert_sorted le a xs) = rw behind at k in
        let rest = unsorted_one P a xs k'.1 in (rest.0, (k'.0, rest.1))
  ]

  pub unsorted :
      (P : AttachmentRow → Type 0) (xs : List AttachmentRow) → All P (sort le xs) → All P xs
  unsorted P [] k = tt
  unsorted P (x ∷ xs) k =
      let rest = unsorted_one P x (sort le xs) k in (rest.0, unsorted P xs rest.1)

  pub sorted_first :
      (xs : List AttachmentRow) (r : AttachmentRow) → head (sort le xs) ≡ some r → Least r xs
  sorted_first xs r e =
      unsorted (λ (q : AttachmentRow). le r q ≡ true) xs (go (sort le xs) e (sort-Led xs))
    where
      go : (ys : List AttachmentRow) → head ys ≡ some r → Led ys → Least r ys
      go [] e k = tt
      go (y ∷ ys) e k = subst (λ z. Least z (y ∷ ys)) (cc) k

unselected :
    (p q : AttachmentRow → Bool) (rows : List AttachmentRow)
    → All (λ r. q r ≡ true) (select p rows)
    → All (λ r. (not (p r) || q r) ≡ true) rows
unselected p q [] k = tt
unselected p q (x ∷ xs) k = elim (Bool-cases (p x)) [
  | inl yes_it ↦
      let k' : (q x ≡ true) × All (λ r. q r ≡ true) (select p xs) = rw yes_it at k in
      (ground (arith, k'.0), unselected p q xs k'.1)
  | inr no_it ↦
      let k' : All (λ r. q r ≡ true) (select p xs) = rw no_it at k in
      (ground (arith, no_it), unselected p q xs k')
]

pub selected :
    (p : AttachmentRow → Bool) (rows : List AttachmentRow) → All (λ r. p r ≡ true) (select p rows)
selected p [] = tt
selected p (x ∷ xs) = ground (arith, selected p xs)

pub head-All :
    (P : AttachmentRow → Type 0) (xs : List AttachmentRow) {r : AttachmentRow}
    → All P xs
    → head xs ≡ some r
    → P r
head-All P [] k e = cc
head-All P (x ∷ xs) k e = subst P (cc) k.0

head-none : (P : AttachmentRow → Type 0) (xs : List AttachmentRow) → head xs ≡ none → All P xs
head-none P [] e = tt
head-none P (x ∷ xs) e = cc

none_selected :
    (p : AttachmentRow → Bool) (rows : List AttachmentRow)
    → All (λ _. ⊥) (select p rows)
    → All (λ r. p r ≡ false) rows
none_selected p [] k = tt
none_selected p (x ∷ xs) k = elim (Bool-cases (p x)) [
  | inl yes_it ↦ let k' : ⊥ × All (λ _. ⊥) (select p xs) = rw yes_it at k in absurd k'.0
  | inr no_it ↦
      let k' : All (λ _. ⊥) (select p xs) = rw no_it at k in (no_it, none_selected p xs k')
]

parse_order_total : (a b : AttachmentRow) → parse_order a b ≡ false → parse_order b a ≡ true
unfolding parse_order
parse_order_total a b h = ground (arith, h)

parse_order_trans :
    (a b c : AttachmentRow)
    → parse_order a b ≡ true
    → parse_order b c ≡ true
    → parse_order a c ≡ true
unfolding parse_order
parse_order_trans a b c h k = ground (arith, h, k)

parse_order_refl : (a : AttachmentRow) → parse_order a a ≡ true
unfolding parse_order
parse_order_refl a = ground arith

-- What a claim finds, and what it leaves out.
pub candidate-found :
    (now : ℕ) (locked : List ℕ) (rows : List AttachmentRow) (r : AttachmentRow)
    → parse_candidate now locked rows ≡ some r
    → (open_to now locked r ≡ true)
      × All (λ q. (not (open_to now locked q) || parse_order r q) ≡ true) rows
unfolding parse_candidate
candidate-found now locked rows r e =
    let picked = select (open_to now locked) rows in
    (
      head-All (λ (q : AttachmentRow). open_to now locked q ≡ true) (sort parse_order picked)
          (All-sort (λ (q : AttachmentRow). open_to now locked q ≡ true) parse_order picked
            (selected (open_to now locked) rows))
          e,
      unselected (open_to now locked) (parse_order r) rows (
          sorted_first parse_order parse_order_refl parse_order_total parse_order_trans picked r e),
    )

pub candidate-none :
    (now : ℕ) (locked : List ℕ) (rows : List AttachmentRow)
    → parse_candidate now locked rows ≡ none
    → All (λ q. open_to now locked q ≡ false) rows
unfolding parse_candidate
candidate-none now locked rows e =
    let picked = select (open_to now locked) rows in
    let none_there =
      unsorted parse_order parse_order_refl parse_order_total parse_order_trans (λ _. ⊥) picked
        (head-none (λ _. ⊥) (sort parse_order picked) e) in
    none_selected (open_to now locked) rows none_there
