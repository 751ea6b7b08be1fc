-- ===== src/Quota/Settling.antt =====
-- The loop of `transitionQuotaReservation` in src/server/quota/repository.ts: it succeeds, keeps
-- the accounts, and acts on the ledger as one update of all its rows.
use openvac_web.Quota.Repository.Transition.{settle_bucket, settle_row, update_row, transition_row}
use openvac_web.Quota.Repository.Rows.{RepositoryTransitionInput, find_bucket, update_bucket}
use openvac_web.Prelude.{
  ℕ, ◌+◌, ◌≤◌, String, ◌≡◌, refl, inl, inr, Bool, false, Option, none, some, List, [], ◌∷◌, arith,
  ◌==◌, if◌then◌else◌, Bool-cases, Option-cases, ok,
}
use openvac_web.Quota.Types.{
  Target, is_reserved, BucketRow, LedgerRow, Database, reserved, to_committed, to_released,
}
use openvac_web.Quota.Accounting.{
  reserved_of, committed_of, IsSound, Rows, IsValid, Agree, Buckets-missing, Buckets-update,
  find_bucket-IsSound,
}

unfoldable pub find_row : ℕ → List LedgerRow → Option LedgerRow
find_row id [] = none
find_row id (r ∷ rs) = if r.id == id then some r else find_row id rs

-- `update(quotaLedger).set(f).where(p)`.
unfoldable pub bulk : (LedgerRow → Bool) → (LedgerRow → LedgerRow) → List LedgerRow → List LedgerRow
bulk p f [] = []
bulk p f (r ∷ rs) = (if p r then f r else r) ∷ bulk p f rs

abbrev charged : Target → ℕ → ℕ
charged to_committed units = units
charged to_released units = 0

module _ (t : Target) (reason : Option String) (now : ℕ) where
  pub settle_row-keeps :
      (r : LedgerRow)
      → ((settle_row t reason now r).id ≡ r.id)
        × ((settle_row t reason now r).bucket_id ≡ r.bucket_id)
        × ((settle_row t reason now r).units ≡ r.units)
        × (is_reserved (settle_row t reason now r).status ≡ false)
  unfolding settle_row
  settle_row-keeps r = ground arith

  -- Settling one reserved row moves its units out of the reserve, and into the charge on commit.
  settle_sums :
      (row : LedgerRow) (ledger : List LedgerRow)
      → find_row row.id ledger ≡ some row
      → row.status ≡ reserved
      → (j : ℕ)
      → (reserved_of j (update_row row.id (settle_row t reason now) ledger)
            + (if row.bucket_id == j then row.units else 0)
          ≡ reserved_of j ledger)
        × (committed_of j (update_row row.id (settle_row t reason now) ledger)
            ≡ committed_of j ledger + (if row.bucket_id == j then charged t row.units else 0))
  unfolding find_row update_row settle_row reserved_of committed_of
  settle_sums row [] e st j = absurd (cc)
  settle_sums row (r ∷ rs) e st j = elim (Bool-cases (r.id == row.id)) [
    | inl hit ↦ ground arith
    | inr miss ↦ ground (arith, settle_sums row rs (ground arith) st j)
  ]

  settle-Rows :
      (id n : ℕ) (ledger : List LedgerRow)
      → Rows n ledger
      → Rows n (update_row id (settle_row t reason now) ledger)
  unfolding update_row settle_row
  settle-Rows id n [] k = tt
  settle-Rows id n (r ∷ rs) k = ground (arith, settle-Rows id r.id rs k.4)

  settle-Agree :
      (row : LedgerRow) (ledger : List LedgerRow)
      → find_row row.id ledger ≡ some row
      → row.status ≡ reserved
      → Agree row.bucket_id ledger (update_row row.id (settle_row t reason now) ledger)
  settle-Agree row ledger e st j ne = ground (arith, settle_sums row ledger e st j)

  settle_bucket-IsSound :
      (row : LedgerRow) (ledger : List LedgerRow) (b : BucketRow)
      → find_row row.id ledger ≡ some row
      → row.status ≡ reserved
      → b.id ≡ row.bucket_id
      → IsSound ledger b
      → (row.units ≤ b.reserved_units)
        × IsSound (update_row row.id (settle_row t reason now) ledger) (settle_bucket t row.units b)
  unfolding settle_bucket
  settle_bucket-IsSound row ledger b e st same s = ground (arith, settle_sums row ledger e st b.id)

  settle_bucket-id : (units : ℕ) (b : BucketRow) → (settle_bucket t units b).id ≡ b.id
  unfolding settle_bucket
  settle_bucket-id units b = ground arith

  -- The state after one reserved row is settled.
  abbrev pub settled : LedgerRow → Database → Database
  settled row db = record db {
    buckets = update_bucket row.bucket_id (settle_bucket t row.units) db.buckets;
    ledger = update_row row.id (settle_row t reason now) db.ledger;
  }

  update_bucket-missing :
      (i : ℕ) (f : BucketRow → BucketRow) (bs : List BucketRow)
      → find_bucket i bs ≡ none
      → update_bucket i f bs ≡ bs
  unfolding find_bucket update_bucket
  update_bucket-missing i f [] e = refl
  update_bucket-missing i f (b ∷ bs) e = ground (arith, update_bucket-missing i f bs)

  pub settled-IsValid :
      (row : LedgerRow) (db : Database)
      → IsValid db
      → find_row row.id db.ledger ≡ some row
      → row.status ≡ reserved
      → IsValid (settled row db)
  settled-IsValid row db v e st = record {
    buckets_sound = elim (Option-cases (find_bucket row.bucket_id db.buckets)) [
      | inl missing ↦
          rw (update_bucket-missing row.bucket_id (settle_bucket t row.units) db.buckets missing) (
            Buckets-missing row.bucket_id db.next_id db.ledger _ db.buckets
              (settle-Agree row db.ledger e st) missing v.buckets_sound)
      | inr (b, found) ↦
          let (same, lt, sound) =
            find_bucket-IsSound row.bucket_id db.next_id db.ledger db.buckets b v.buckets_sound
              found in
          Buckets-update row.bucket_id db.next_id (settle_bucket t row.units) db.ledger _ db.buckets
            b (settle-Agree row db.ledger e st) found (settle_bucket-id row.units b)
            (λ s. (settle_bucket-IsSound row db.ledger b e st same s).1) v.buckets_sound
    ];
    rows_sound = settle-Rows row.id db.next_id db.ledger v.rows_sound;
  }

module _ (input : RepositoryTransitionInput) (t : Target) (now : ℕ) where
  -- A reserved row is settled, and the database's check never refuses it.
  pub transition_row-settled :
      (row : LedgerRow) (db : Database)
      → IsValid db
      → find_row row.id db.ledger ≡ some row
      → row.status ≡ reserved
      → transition_row input t now row db ≡ ok (tt, settled t input.reason now row db)
  unfolding transition_row
  transition_row-settled row db v e st =
      elim (Option-cases (find_bucket row.bucket_id db.buckets)) [
        | inl missing ↦ ground arith
        | inr (b, found) ↦
            let (same, lt, sound) =
              find_bucket-IsSound row.bucket_id db.next_id db.ledger db.buckets b v.buckets_sound
                found in
            let (enough, rest) =
              settle_bucket-IsSound t input.reason now row db.ledger b e st same sound in
            ground arith
      ]

  pub transition_row-skips :
      (row : LedgerRow) (db : Database)
      → is_reserved row.status ≡ false
      → transition_row input t now row db ≡ ok (tt, db)
  unfolding transition_row
  transition_row-skips row db st = rw st
