-- ===== src/Quota/Buckets.antt =====
-- One bucket of `reserve` of src/server/quota/repository.ts: found or inserted, locked, brought to
-- the limit of today's policy and charged.
use openvac_web.Prelude.{
  ℕ, ◌+◌, ◌≤◌, ◌<◌, max, ◌≡◌, refl, sym, ap, subst, inl, inr, some, List, [], ◌∷◌, arith, ◌==◌,
  Bool-cases, Option-cases, first, Ensures,
}
use openvac_web.Quota.Types.{QuotaScopePolicy, BucketRow, LedgerRow, Database, reserved}
use openvac_web.Quota.Repository.Rows.{RepositoryReserveInput, find_bucket, update_bucket}
use openvac_web.Quota.Repository.Reserve.{
  is_bucket, new_bucket, insert_bucket, lock_bucket, reconcile_bucket,
}
use openvac_web.Quota.Accounting.{
  reserved_of, committed_of, IsSound, IsValid, Agree, Buckets-mono, Rows-mono, fresh_sums,
  Buckets-update, find_bucket-first,
}

abbrev Agree-refl : (i : ℕ) (ledger : List LedgerRow) → Agree i ledger ledger
Agree-refl i ledger j ne = (refl, refl)

-- A bucket that the transaction holds locked.
abbrev Held : BucketRow → Database → Type 0
Held b db = IsValid db × (find_bucket b.id db.buckets ≡ some b) × (b.id < db.next_id)

-- The lease of the request is older than every row to come.
abbrev pub Ready : ℕ → Database → Type 0
Ready lease_id db = IsValid db × (lease_id < db.next_id)

abbrev pub Locked : ℕ → BucketRow → Database → Type 0
Locked lease_id b db = Held b db × (lease_id < db.next_id)

find_bucket-update :
    (i : ℕ) (f : BucketRow → BucketRow) (bs : List BucketRow) (b : BucketRow)
    → find_bucket i bs ≡ some b
    → (f b).id ≡ b.id
    → find_bucket i (update_bucket i f bs) ≡ some (f b)
unfolding find_bucket update_bucket
find_bucket-update i f [] b e same = absurd (cc)
find_bucket-update i f (c ∷ bs) b e same = elim (Bool-cases (c.id == i)) [
  | inl hit ↦
      let c_eq : c ≡ b = ground arith in
      rw (hit, c_eq) (rw same (rw (ap (λ (x : BucketRow). x.id == i) (sym c_eq)) (rw hit)))
  | inr miss ↦ rw miss (rw miss (find_bucket-update i f bs b (ground arith) same))
]

new_bucket-IsValid :
    (input : RepositoryReserveInput) (scope : QuotaScopePolicy) (db : Database)
    → IsValid db
    → IsValid (record db {
      buckets = new_bucket input scope db.next_id ∷ db.buckets;
      next_id = db.next_id + 1;
    })
unfolding new_bucket
new_bucket-IsValid input scope db v =
    let (no_reserved, no_committed) =
      fresh_sums db.next_id db.next_id db.ledger v.rows_sound (omega arith) in
    record {
      buckets_sound = (
        omega arith,
        record {
          reserved_sum = sym no_reserved;
          committed_sum = sym no_committed;
          within = omega arith;
        },
        v.buckets_sound,
      );
      rows_sound = Rows-mono db.next_id (db.next_id + 1) db.ledger (omega arith) v.rows_sound;
    }

pub insert_bucket-Ready :
    (lease_id : ℕ) (input : RepositoryReserveInput) (scope : QuotaScopePolicy) (db : Database)
    → Ready lease_id db
    → Ensures (λ _ s. Ready lease_id s) (insert_bucket input scope db)
unfolding insert_bucket
insert_bucket-Ready lease_id input scope db v =
    ground (arith, new_bucket-IsValid input scope db v.0)

pub lock_bucket-Locked :
    (lease_id : ℕ) (input : RepositoryReserveInput) (scope : QuotaScopePolicy) (db : Database)
    → Ready lease_id db
    → Ensures (Locked lease_id) (lock_bucket input scope db)
unfolding lock_bucket
lock_bucket-Locked lease_id input scope db (v, young) =
    elim (Option-cases (first (is_bucket input scope) db.buckets)) [
      | inl absent ↦ rw (absent, Ensures, lock_bucket) tt
      | inr (b, present) ↦
          let (found, lt) =
            find_bucket-first (is_bucket input scope) db.next_id db.ledger db.buckets b
              v.buckets_sound present in
          rw (present, Ensures, lock_bucket) ((v, found, lt), young)
    ]

set_limit-IsSound :
    (ledger : List LedgerRow) (limit : ℕ) (b : BucketRow)
    → b.reserved_units + b.committed_units ≤ limit
    → IsSound ledger b
    → IsSound ledger (record b { limit_value = limit })
set_limit-IsSound ledger limit b h s = record {
  reserved_sum = s.reserved_sum;
  committed_sum = s.committed_sum;
  within = h;
}

set_limit-Held :
    (limit : ℕ) (b : BucketRow) (db : Database)
    → b.reserved_units + b.committed_units ≤ limit
    → Held b db
    → Held
        (record b { limit_value = limit })
        (record db {
          buckets = update_bucket b.id (λ r. record r { limit_value = limit }) db.buckets;
        })
set_limit-Held limit b db h (v, found, lt) = (
  record {
    buckets_sound =
        Buckets-update b.id db.next_id _ db.ledger db.ledger db.buckets b
          (Agree-refl b.id db.ledger) found refl (set_limit-IsSound db.ledger limit b h)
          v.buckets_sound;
    rows_sound = v.rows_sound;
  },
  find_bucket-update b.id _ db.buckets b found refl,
  lt,
)

pub reconcile_bucket-Locked :
    (lease_id : ℕ) (scope : QuotaScopePolicy) (existing : BucketRow) (db : Database)
    → Locked lease_id existing db
    → Ensures (Locked lease_id) (reconcile_bucket scope existing db)
unfolding reconcile_bucket
reconcile_bucket-Locked lease_id scope existing db ((v, found, lt), young) =
    let limit : ℕ = max scope.limit (existing.reserved_units + existing.committed_units) in
    elim (Bool-cases (limit == existing.limit_value)) [
      | inl same ↦ rw same ((v, found, lt), young)
      | inr other ↦
          rw (other, found) (set_limit-Held limit existing db (omega arith) (v, found, lt), young)
    ]

charge-Agree :
    (row : LedgerRow) (ledger : List LedgerRow) → Agree row.bucket_id ledger (row ∷ ledger)
unfolding reserved_of committed_of
charge-Agree row ledger j ne = ground arith

charge-IsSound :
    (row : LedgerRow) (ledger : List LedgerRow) (b : BucketRow)
    → row.status ≡ reserved
    → row.bucket_id ≡ b.id
    → b.reserved_units + b.committed_units + row.units ≤ b.limit_value
    → IsSound ledger b
    → IsSound (row ∷ ledger) (record b { reserved_units = b.reserved_units + row.units })
unfolding reserved_of committed_of
charge-IsSound row ledger b st same fits s = ground arith

pub charge-IsValid :
    (row : LedgerRow) (b : BucketRow) (db : Database)
    → Held b db
    → row.status ≡ reserved
    → row.bucket_id ≡ b.id
    → row.id ≡ db.next_id
    → row.lease_id < db.next_id
    → 0 < row.units
    → b.reserved_units + b.committed_units + row.units ≤ b.limit_value
    → IsValid (record db {
      buckets =
          update_bucket b.id
            (λ r. record r { reserved_units = r.reserved_units + row.units })
            db.buckets;
      ledger = row ∷ db.ledger;
      next_id = db.next_id + 1;
    })
charge-IsValid row b db (v, found, lt) st same id young pos fits = record {
  buckets_sound = Buckets-mono (row ∷ db.ledger) db.next_id (db.next_id + 1) _ (omega arith) (
      Buckets-update b.id db.next_id _ db.ledger (row ∷ db.ledger) db.buckets b
        (subst (λ i. Agree i db.ledger (row ∷ db.ledger)) same (charge-Agree row db.ledger)) found
        refl (charge-IsSound row db.ledger b st same fits) v.buckets_sound);
  rows_sound = (
    omega arith,
    omega arith,
    pos,
    omega arith,
    Rows-mono db.next_id row.id db.ledger (omega arith) v.rows_sound,
  );
}
