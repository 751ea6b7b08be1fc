-- ===== src/Quota/Accounting.antt =====
-- What the counters of a bucket of src/server/quota stand for: the units of its ledger rows.
use openvac_web.Prelude.{
  ℕ, ◌+◌, ◌≤◌, ◌<◌, ◌≡◌, refl, sym, subst, ◌∙◌, ◌≢◌, inl, inr, Bool, ◌&&◌, none, some, List, [],
  ◌∷◌, arith, ◌==◌, if◌then◌else◌, Bool-cases, first,
}
use openvac_web.Quota.Types.{is_committed, is_reserved, BucketRow, LedgerRow, Database}
use openvac_web.Quota.Repository.Rows.{find_bucket, update_bucket}

-- The units that the ledger holds in reserve, and has charged, against a bucket.
unfoldable pub reserved_of : ℕ → List LedgerRow → ℕ
reserved_of i [] = 0
reserved_of i (r ∷ rs) =
    (if r.bucket_id == i && is_reserved r.status then r.units else 0) + reserved_of i rs

unfoldable pub committed_of : ℕ → List LedgerRow → ℕ
committed_of i [] = 0
committed_of i (r ∷ rs) =
    (if r.bucket_id == i && is_committed r.status then r.units else 0) + committed_of i rs

-- The counters are the sums of the ledger, and stay within the limit.
pub record IsSound (ledger : List LedgerRow) (b : BucketRow) : Type 0 where
  pub reserved_sum : b.reserved_units ≡ reserved_of b.id ledger
  pub committed_sum : b.committed_units ≡ committed_of b.id ledger
  pub within : b.reserved_units + b.committed_units ≤ b.limit_value

-- Identifiers fall along the tables; a row's bucket and lease are older than
-- the row.
abbrev pub Buckets : List LedgerRow → ℕ → List BucketRow → Type 0
Buckets ledger n [] = Unit {0}
Buckets ledger n (b ∷ bs) = (b.id < n) × IsSound ledger b × Buckets ledger b.id bs

abbrev pub Rows : ℕ → List LedgerRow → Type 0
Rows n [] = Unit {0}
Rows n (r ∷ rs) =
    (r.bucket_id < r.id) × (r.id < n) × (0 < r.units) × (r.lease_id < r.id) × Rows r.id rs

pub record IsValid (db : Database) : Type 0 where
  pub buckets_sound : Buckets db.ledger db.next_id db.buckets
  pub rows_sound : Rows db.next_id db.ledger

-- Two ledgers that differ only in what they hold against one bucket.
abbrev pub Agree : ℕ → List LedgerRow → List LedgerRow → Type 0
Agree i old new =
    (j : ℕ)
    → j ≢ i
    → (reserved_of j new ≡ reserved_of j old) × (committed_of j new ≡ committed_of j old)

pub Buckets-mono :
    (ledger : List LedgerRow) (m n : ℕ) (bs : List BucketRow)
    → m ≤ n
    → Buckets ledger m bs
    → Buckets ledger n bs
Buckets-mono ledger m n [] h k = tt
Buckets-mono ledger m n (b ∷ bs) h k = (omega arith, k.1, k.2)

pub Rows-mono : (m n : ℕ) (rs : List LedgerRow) → m ≤ n → Rows m rs → Rows n rs
Rows-mono m n [] h k = tt
Rows-mono m n (r ∷ rs) h k = (k.0, omega arith, k.2, k.3, k.4)

pub fresh_sums :
    (n i : ℕ) (rs : List LedgerRow)
    → Rows n rs
    → n ≤ i
    → (reserved_of i rs ≡ 0) × (committed_of i rs ≡ 0)
unfolding reserved_of committed_of
fresh_sums n i [] k h = (refl, refl)
fresh_sums n i (r ∷ rs) k h = ground (arith, fresh_sums r.id i rs k.4)

IsSound-agree :
    (i : ℕ) (old new : List LedgerRow) (b : BucketRow)
    → Agree i old new
    → b.id ≢ i
    → IsSound old b
    → IsSound new b
IsSound-agree i old new b a ne s =
    let (r, c) = a b.id ne in
    record {
      reserved_sum = s.reserved_sum ∙ sym r;
      committed_sum = s.committed_sum ∙ sym c;
      within = s.within;
    }

pub Buckets-above :
    (i n : ℕ) (old new : List LedgerRow) (bs : List BucketRow)
    → Agree i old new
    → n ≤ i
    → Buckets old n bs
    → Buckets new n bs
Buckets-above i n old new [] a h k = tt
Buckets-above i n old new (b ∷ bs) a h k = (
  k.0,
  IsSound-agree i old new b a (omega arith) k.1,
  Buckets-above i b.id old new bs a (omega arith) k.2,
)

pub Buckets-missing :
    (i n : ℕ) (old new : List LedgerRow) (bs : List BucketRow)
    → Agree i old new
    → find_bucket i bs ≡ none
    → Buckets old n bs
    → Buckets new n bs
unfolding find_bucket
Buckets-missing i n old new [] a e k = tt
Buckets-missing i n old new (b ∷ bs) a e k = elim (Bool-cases (b.id == i)) [
  | inl same ↦ absurd (ground arith)
  | inr other ↦ (
    k.0,
    IsSound-agree i old new b a (ground arith) k.1,
    Buckets-missing i b.id old new bs a (ground arith) k.2,
  )
]

pub Buckets-update :
    (i n : ℕ) (f : BucketRow → BucketRow) (old new : List LedgerRow) (bs : List BucketRow)
    (b : BucketRow)
    → Agree i old new
    → find_bucket i bs ≡ some b
    → (f b).id ≡ b.id
    → (IsSound old b → IsSound new (f b))
    → Buckets old n bs
    → Buckets new n (update_bucket i f bs)
unfolding find_bucket update_bucket
Buckets-update i n f old new [] b a e same keep k = tt
Buckets-update i n f old new (c ∷ bs) b a e same keep k = elim (Bool-cases (c.id == i)) [
  | inl hit ↦
      let c_eq : c ≡ b = ground arith in
      rw (hit, c_eq)
        (
          rw same (subst (λ (x : BucketRow). x.id < n) c_eq k.0),
          keep (subst (IsSound old) c_eq k.1),
          rw same (
              Buckets-above i b.id old new bs a (ground arith)
                (subst (λ (x : BucketRow). Buckets old x.id bs) c_eq k.2)),
        )
  | inr miss ↦ rw miss (
    k.0,
    IsSound-agree i old new c a (ground arith) k.1,
    Buckets-update i c.id f old new bs b a (ground arith) same keep k.2,
  )
]

pub find_bucket-IsSound :
    (i n : ℕ) (ledger : List LedgerRow) (bs : List BucketRow) (b : BucketRow)
    → Buckets ledger n bs
    → find_bucket i bs ≡ some b
    → (b.id ≡ i) × (b.id < n) × IsSound ledger b
unfolding find_bucket
find_bucket-IsSound i n ledger [] b k e = absurd (cc)
find_bucket-IsSound i n ledger (c ∷ bs) b k e = elim (Bool-cases (c.id == i)) [
  | inl hit ↦
      let c_eq : c ≡ b = ground arith in
      (ground arith, ground arith, subst (IsSound ledger) c_eq k.1)
  | inr miss ↦
      let (same, lt, sound) = find_bucket-IsSound i c.id ledger bs b k.2 (ground arith) in
      (same, omega arith, sound)
]

pub find_bucket-first :
    (p : BucketRow → Bool) (n : ℕ) (ledger : List LedgerRow) (bs : List BucketRow) (b : BucketRow)
    → Buckets ledger n bs
    → first p bs ≡ some b
    → (find_bucket b.id bs ≡ some b) × (b.id < n)
unfolding find_bucket
find_bucket-first p n ledger [] b k e = absurd (cc)
find_bucket-first p n ledger (c ∷ bs) b k e = elim (Bool-cases (p c)) [
  | inl hit ↦ ground arith
  | inr miss ↦
      let (found, lt) = find_bucket-first p c.id ledger bs b k.2 (ground arith) in ground arith
]
