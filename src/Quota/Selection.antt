-- ===== src/Quota/Selection.antt =====
-- The rows that a transition of src/server/quota/repository.ts selects, and the ledger after one
-- update of all of them.
use openvac_web.Prelude.{
  ℕ, ◌≤◌, ◌<◌, ◌≡◌, refl, sym, ◌∙◌, ◌≢◌, inl, inr, Bool, false, ◌&&◌, ◌||◌, some, List, [], ◌∷◌,
  arith, ◌==◌, Bool-cases, any, select, insert_sorted, sort, All, All-insert_sorted, All-sort,
  All-map_of,
}
use openvac_web.Quota.Types.{is_reserved, LedgerRow, Database, Collation}
use openvac_web.Quota.Repository.Rows.{RepositoryTransitionInput, compare_rows, order_by_scope}
use openvac_web.Quota.Repository.Transition.{is_lease, select_lease_rows}
use openvac_web.Quota.Accounting.{Rows, IsValid}
use openvac_web.Quota.Settling.{find_row, bulk}

-- Each row stands in the ledger as it was read.
abbrev pub Current : List LedgerRow → List LedgerRow → Type 0
Current ledger = All (λ r. find_row r.id ledger ≡ some r)

abbrev pub Distinct : List LedgerRow → Type 0
Distinct [] = Unit {0}
Distinct (r ∷ rs) = All (λ x. x.id ≢ r.id) rs × Distinct rs

Listed : ℕ → List LedgerRow → LedgerRow → Type 0
Listed n ledger r = (r.id < n) × (find_row r.id ledger ≡ some r)

Listed-cons :
    (n : ℕ) (x r : LedgerRow) (rs : List LedgerRow)
    → x.id < n
    → Listed x.id rs r
    → Listed n (x ∷ rs) r
unfolding Listed find_row
Listed-cons n x r rs h k = ground arith

select-Listed :
    (p : LedgerRow → Bool) (n : ℕ) (ledger : List LedgerRow)
    → Rows n ledger
    → All (Listed n ledger) (select p ledger)
unfolding Listed find_row
select-Listed p n [] k = tt
select-Listed p n (x ∷ rs) k =
    let rest =
      All-map_of (Listed n (x ∷ rs)) (Listed x.id rs) (λ r l. Listed-cons n x r rs k.1 l)
        (select p rs) (select-Listed p x.id rs k.4) in
    elim (Bool-cases (p x)) [
      | inl hit ↦ rw hit ((k.1, ground arith), rest)
      | inr miss ↦ rw miss rest
    ]

select-Distinct :
    (p : LedgerRow → Bool) (n : ℕ) (ledger : List LedgerRow)
    → Rows n ledger
    → Distinct (select p ledger)
unfolding Listed
select-Distinct p n [] k = tt
select-Distinct p n (x ∷ rs) k =
    let below =
      All-map_of (λ r. r.id ≢ x.id) (Listed x.id rs) (λ r l. omega (arith, l.0)) (select p rs)
        (select-Listed p x.id rs k.4) in
    elim (Bool-cases (p x)) [
      | inl hit ↦ rw hit (below, select-Distinct p x.id rs k.4)
      | inr miss ↦ rw miss (select-Distinct p x.id rs k.4)
    ]

Distinct-insert_sorted :
    (le : LedgerRow → LedgerRow → Bool) (a : LedgerRow) (rows : List LedgerRow)
    → All (λ x. x.id ≢ a.id) rows
    → Distinct rows
    → Distinct (insert_sorted le a rows)
Distinct-insert_sorted le a [] h k = (tt, tt)
Distinct-insert_sorted le a (x ∷ xs) h k = elim (Bool-cases (le a x)) [
  | inl before ↦ rw before (h, k)
  | inr later ↦ rw later (
    All-insert_sorted (λ y. y.id ≢ x.id) le a xs (λ e. h.0 (sym e)) k.0,
    Distinct-insert_sorted le a xs h.1 k.1,
  )
]

Distinct-sort :
    (le : LedgerRow → LedgerRow → Bool) (rows : List LedgerRow)
    → Distinct rows
    → Distinct (sort le rows)
Distinct-sort le [] k = tt
Distinct-sort le (x ∷ xs) k =
    Distinct-insert_sorted le x (sort le xs) (All-sort (λ y. y.id ≢ x.id) le xs k.0)
      (Distinct-sort le xs k.1)

any-insert_sorted :
    (q : LedgerRow → Bool) (le : LedgerRow → LedgerRow → Bool) (a : LedgerRow)
    (rows : List LedgerRow)
    → any q (insert_sorted le a rows) ≡ (q a || any q rows)
any-insert_sorted q le a [] = refl
any-insert_sorted q le a (x ∷ xs) = ground (arith, any-insert_sorted q le a xs)

any-sort :
    (q : LedgerRow → Bool) (le : LedgerRow → LedgerRow → Bool) (rows : List LedgerRow)
    → any q (sort le rows) ≡ any q rows
any-sort q le [] = refl
any-sort q le (x ∷ xs) = rw (any-insert_sorted q le x (sort le xs), any-sort q le xs)

-- Which rows of the ledger the loop over `rows` settles.
abbrev pub settles : List LedgerRow → LedgerRow → Bool
settles rows r = any (λ (row : LedgerRow). row.id == r.id && is_reserved row.status) rows

settles_other :
    (n : ℕ) (rows : List LedgerRow) (r : LedgerRow)
    → All (λ x. x.id < n) rows
    → n ≤ r.id
    → settles rows r ≡ false
settles_other n [] r k h = refl
settles_other n (x ∷ xs) r k h = ground (arith, settles_other n xs r k.1 h)

settles-select :
    (p : LedgerRow → Bool) (n : ℕ) (ledger : List LedgerRow)
    → Rows n ledger
    → All (λ r. (r.id < n) × (settles (select p ledger) r ≡ (p r && is_reserved r.status))) ledger
unfolding Listed
settles-select p n [] k = tt
settles-select p n (x ∷ rs) k = (
  (
    k.1,
    ground (
      arith,
      settles_other x.id (select p rs) x
          (All-map_of (λ r. r.id < x.id) (Listed x.id rs) (λ r l. l.0) (select p rs)
            (select-Listed p x.id rs k.4))
          (omega arith),
    ),
  ),
  All-map_of _ (λ r. (r.id < x.id) × (settles (select p rs) r ≡ (p r && is_reserved r.status)))
      (λ r h. (omega (arith, h.0, k.1), ground (arith, h.0, h.1))) rs
      (settles-select p x.id rs k.4),
)

pub bulk_ext :
    (p q : LedgerRow → Bool) (f : LedgerRow → LedgerRow) (ledger : List LedgerRow)
    → All (λ r. p r ≡ q r) ledger
    → bulk p f ledger ≡ bulk q f ledger
unfolding bulk
bulk_ext p q f [] k = refl
bulk_ext p q f (r ∷ rs) k = rw (k.0, bulk_ext p q f rs k.1)

-- The rows of a lease, as the code selects and sorts them.
pub lease_rows_ready :
    (c : Collation) (input : RepositoryTransitionInput) (db : Database)
    → IsValid db
    → Current db.ledger (select_lease_rows c input db) × Distinct (select_lease_rows c input db)
unfolding select_lease_rows Listed
lease_rows_ready c input db v =
    let rows = select (is_lease input) db.ledger in
    let found =
      All-map_of (λ r. find_row r.id db.ledger ≡ some r) (Listed db.next_id db.ledger) (λ r l. l.1)
        rows (select-Listed (is_lease input) db.next_id db.ledger v.rows_sound) in
    (
      All-sort _ (compare_rows c) _ (All-sort _ (order_by_scope c) rows found),
      Distinct-sort (compare_rows c) _ (
          Distinct-sort (order_by_scope c) rows
            (select-Distinct (is_lease input) db.next_id db.ledger v.rows_sound)),
    )

pub settles-lease_rows :
    (c : Collation) (input : RepositoryTransitionInput) (db : Database) (f : LedgerRow → LedgerRow)
    → IsValid db
    → bulk (settles (select_lease_rows c input db)) f db.ledger
      ≡ bulk (λ r. is_lease input r && is_reserved r.status) f db.ledger
unfolding select_lease_rows
settles-lease_rows c input db f v = bulk_ext _ _ f db.ledger (
    All-map_of _
      (λ r.
        (r.id < db.next_id)
        × (settles (select (is_lease input) db.ledger) r
            ≡ (is_lease input r && is_reserved r.status)))
      (λ r h.
        any-sort _ (compare_rows c) (sort (order_by_scope c) (select (is_lease input) db.ledger))
        ∙ any-sort _ (order_by_scope c) (select (is_lease input) db.ledger)
        ∙ h.1)
      db.ledger (settles-select (is_lease input) db.next_id db.ledger v.rows_sound))
