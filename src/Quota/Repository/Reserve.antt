-- ===== src/Quota/Repository/Reserve.antt =====
-- src/server/quota/repository.ts: `reserve`.
use openvac_web.Prelude.{
  ℕ, ◌+◌, Bool, true, false, ◌&&◌, none, some, List, [], ◌∷◌, ◌++◌, str_eq, ltb, leb, ◌==◌,
  if◌then◌else◌, first, sort, Result, ◌>>=◌, ◌>>◌, pure, gets, ok, err,
}
use openvac_web.Quota.Types.{
  same_resource, same_scope_type, QuotaScopePolicy, QuotaReservation, BucketRow, LedgerRow,
  Database, QuotaError, Collation, reserved, quota_exceeded, bucket_not_initialized,
  bucket_not_reconciled, unique_violation, check_violation, integer_out_of_range,
}
use openvac_web.Quota.Repository.Rows.{
  M, RepositoryReserveInput, reconcile_quota_bucket_limit, compare_scopes, select_idempotent_rows,
  assert_actor_can_reserve, find_bucket, update_bucket, reservation_from_rows,
}

unfoldable pub is_bucket : RepositoryReserveInput → QuotaScopePolicy → BucketRow → Bool
is_bucket input scope b =
    same_resource b.resource input.resource
    && (same_scope_type b.scope_type scope.scope_type
        && (str_eq b.scope_key scope.scope_key && str_eq b.window_key input.window.key))

unfoldable pub new_bucket : RepositoryReserveInput → QuotaScopePolicy → ℕ → BucketRow
new_bucket input scope id = record {
  id = id;
  resource = input.resource;
  scope_type = scope.scope_type;
  scope_key = scope.scope_key;
  window_key = input.window.key;
  limit_value = scope.limit;
  reserved_units = 0;
  committed_units = 0;
  reset_at = input.window.reset_at;
}

-- `insert(quotaBucket) … onConflictDoNothing`, under the table's check `limit_value > 0`.
unfoldable pub insert_bucket : RepositoryReserveInput → QuotaScopePolicy → M (Unit {0})
unfolding is_bucket new_bucket
insert_bucket input scope db =
    if scope.limit == 0
    then err check_violation
    else elim (first (is_bucket input scope) db.buckets) [
      | some existing ↦ ok (tt, db)
      | none ↦ ok (
        tt,
        record db {
          buckets = new_bucket input scope db.next_id ∷ db.buckets;
          next_id = db.next_id + 1;
        },
      )
    ]

unfoldable pub lock_bucket : RepositoryReserveInput → QuotaScopePolicy → M BucketRow
unfolding is_bucket
lock_bucket input scope db = elim (first (is_bucket input scope) db.buckets) [
  | none ↦ err bucket_not_initialized
  | some bucket ↦ ok (bucket, db)
]

unfoldable pub reconcile_bucket : QuotaScopePolicy → BucketRow → M BucketRow
unfolding reconcile_quota_bucket_limit find_bucket update_bucket
reconcile_bucket scope existing db =
    let limit =
      reconcile_quota_bucket_limit scope.limit existing.reserved_units existing.committed_units in
    if limit == existing.limit_value
    then ok (existing, db)
    else elim (find_bucket existing.id db.buckets) [
      | none ↦ err bucket_not_reconciled
      | some b ↦ ok (
        record b { limit_value = limit },
        record db {
          buckets = update_bucket existing.id (λ r. record r { limit_value = limit }) db.buckets;
        },
      )
    ]

-- The largest value of PostgreSQL's `integer`.
abbrev pub integer_max : ℕ
integer_max = 2147483647

-- The conditional update: no row comes back when the bucket has no room for the units.
unfoldable pub take_units : RepositoryReserveInput → QuotaScopePolicy → BucketRow → M (Unit {0})
unfolding find_bucket update_bucket
take_units input scope bucket db = elim (find_bucket bucket.id db.buckets) [
  | none ↦ err (quota_exceeded input.resource scope.scope_type bucket.limit_value bucket.reset_at)
  | some b ↦
      if ltb integer_max (b.reserved_units + b.committed_units + input.units)
      then err integer_out_of_range
      else if leb (b.reserved_units + b.committed_units + input.units) b.limit_value
      then ok (
        tt,
        record db {
          buckets =
              update_bucket bucket.id
                (λ r. record r { reserved_units = r.reserved_units + input.units }) db.buckets;
        },
      )
      else err (quota_exceeded input.resource scope.scope_type bucket.limit_value bucket.reset_at)
]

-- The unique index `quota_ledger_idempotency_unique`.
unfoldable pub is_duplicate : LedgerRow → LedgerRow → Bool
is_duplicate new row =
    str_eq row.actor_user_id new.actor_user_id
    && (same_resource row.resource new.resource
        && (str_eq row.client_request_id new.client_request_id
            && (same_scope_type row.scope_type new.scope_type
                && str_eq row.scope_key new.scope_key)))

unfoldable pub new_ledger_row :
    RepositoryReserveInput → ℕ → ℕ → QuotaScopePolicy → BucketRow → ℕ → LedgerRow
new_ledger_row input lease_id now scope bucket id = record {
  id = id;
  lease_id = lease_id;
  bucket_id = bucket.id;
  actor_user_id = input.actor_user_id;
  client_request_id = input.client_request_id;
  resource = input.resource;
  scope_type = scope.scope_type;
  scope_key = scope.scope_key;
  window_key = input.window.key;
  units = input.units;
  status = reserved;
  release_reason = none;
  reserved_at = now;
  committed_at = none;
  released_at = none;
}

-- `insert(quotaLedger)`, under the check `units > 0` and the unique index.
unfoldable pub insert_ledger_row : LedgerRow → M LedgerRow
unfolding is_duplicate
insert_ledger_row row db =
    if row.units == 0 then err check_violation else elim (first (is_duplicate row) db.ledger) [
      | some existing ↦ err unique_violation
      | none ↦ ok (row, record db { ledger = row ∷ db.ledger; next_id = db.next_id + 1 })
    ]

-- One round of the loop over the sorted scopes.
unfoldable pub reserve_scope : RepositoryReserveInput → ℕ → ℕ → QuotaScopePolicy → M LedgerRow
unfolding insert_bucket lock_bucket reconcile_bucket take_units insert_ledger_row new_ledger_row
reserve_scope input lease_id now scope = do
  insert_bucket input scope
  existing ← lock_bucket input scope
  bucket ← reconcile_bucket scope existing
  take_units input scope bucket
  id ← gets (λ db. db.next_id)
  insert_ledger_row (new_ledger_row input lease_id now scope bucket id)

unfoldable pub reserve_scopes :
    RepositoryReserveInput → ℕ → ℕ → List QuotaScopePolicy → List LedgerRow → M (List LedgerRow)
unfolding reserve_scope
reserve_scopes input lease_id now [] rows = pure rows
reserve_scopes input lease_id now (scope ∷ scopes) rows = do
  row ← reserve_scope input lease_id now scope
  reserve_scopes input lease_id now scopes (rows ++ row ∷ [])

unfoldable pub random_uuid : M ℕ
random_uuid db = ok (db.next_id, record db { next_id = db.next_id + 1 })

-- What the transaction does when the request has no rows yet.
unfoldable pub reserve_new : Collation → RepositoryReserveInput → ℕ → M QuotaReservation
unfolding random_uuid reserve_scopes reservation_from_rows
reserve_new c input now = do
  lease_id ← random_uuid
  rows ← reserve_scopes input lease_id now (sort (compare_scopes c) input.scopes) []
  reservation_from_rows rows false

-- The transaction of `reserve`. Its first select reads `seen`, which is older than the state that
-- its writes meet when another transaction with the same request commits in between.
unfoldable pub reserve_in_transaction :
    Collation → RepositoryReserveInput → ℕ → Database → M QuotaReservation
unfolding assert_actor_can_reserve select_idempotent_rows reservation_from_rows reserve_new
reserve_in_transaction c input now seen = do
  assert_actor_can_reserve input.actor_user_id
  elim (select_idempotent_rows c input seen) [
    | [] ↦ reserve_new c input now
    | row ∷ rows ↦ reservation_from_rows (row ∷ rows) true
  ]

unfoldable pub is_unique_violation : QuotaError → Bool
is_unique_violation unique_violation = true
is_unique_violation _ = false

-- The `catch` of `reserve`: the winner of a race on the unique index answers for both.
unfoldable pub recover_reserve :
    Collation
    → RepositoryReserveInput
    → Database
    → QuotaError
    → Result QuotaError (QuotaReservation × Database)
unfolding is_unique_violation select_idempotent_rows reservation_from_rows
recover_reserve c input db error =
    if is_unique_violation error
    then elim (select_idempotent_rows c input db) [
      | [] ↦ err error
      | row ∷ rows ↦ reservation_from_rows (row ∷ rows) true db
    ]
    else err error

unfoldable pub reserve : Collation → RepositoryReserveInput → ℕ → Database → M QuotaReservation
unfolding reserve_in_transaction recover_reserve
reserve c input now seen db = elim (reserve_in_transaction c input now seen db) [
  | ok (reservation, db') ↦ ok (reservation, db')
  | err error ↦ recover_reserve c input db error
]
