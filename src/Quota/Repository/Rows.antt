-- ===== src/Quota/Repository/Rows.antt =====
-- src/server/quota/repository.ts: the inputs, the selects, and the reservation that rows make up.
use openvac_web.Prelude.{
  ℕ, ◌+◌, ◌-◌, max, String, Bool, ◌&&◌, Option, none, some, List, [], ◌∷◌, map, str_eq, ltb, ◌==◌,
  if◌then◌else◌, every, select, first, sort, Tx, ok, err,
}
use openvac_web.Quota.Types.{
  QuotaResource, QuotaScopeType, QuotaReservationStatus, same_resource, same_scope_type,
  is_committed, is_released, QuotaScopePolicy, QuotaWindow, QuotaScopeUsage, QuotaReservation,
  BucketRow, LedgerRow, Database, QuotaError, Collation, global, user, committed, released,
  reserved, account_unavailable, account_deletion_pending, no_ledger_rows,
}
use Prim.Native.String
use mathlib.Core.Option

abbrev pub M : Type 0 → Type 0
M A = Tx Database QuotaError A

pub record RepositoryReserveInput : Type 0 where
  pub actor_user_id : String
  pub client_request_id : String
  pub resource : QuotaResource
  pub units : ℕ
  pub window : QuotaWindow
  pub scopes : List QuotaScopePolicy

pub record RepositoryTransitionInput : Type 0 where
  pub lease_id : ℕ
  pub actor_user_id : Option String
  pub reason : Option String

pub record RepositoryStatusInput : Type 0 where
  pub resource : QuotaResource
  pub window : QuotaWindow
  pub scopes : List QuotaScopePolicy

unfoldable pub aggregate_status : List LedgerRow → QuotaReservationStatus
aggregate_status rows =
    if every (λ row. is_committed row.status) rows
    then committed
    else if every (λ row. is_released row.status) rows
    then released
    else reserved

unfoldable pub scope_usage : BucketRow → QuotaScopeUsage
scope_usage bucket = record {
  scope_type = bucket.scope_type;
  scope_key = bucket.scope_key;
  limit = bucket.limit_value;
  reserved_units = bucket.reserved_units;
  committed_units = bucket.committed_units;
  remaining = bucket.limit_value - bucket.reserved_units - bucket.committed_units;
  reset_at = bucket.reset_at;
}

unfoldable pub reconcile_quota_bucket_limit : ℕ → ℕ → ℕ → ℕ
reconcile_quota_bucket_limit policy_limit reserved_units committed_units =
    max policy_limit (reserved_units + committed_units)

-- The text that `compareScopes` compares.
unfoldable pub scope_label : QuotaScopeType → String → String
scope_label global key = String.◌++◌ "global:" key
scope_label user key = String.◌++◌ "user:" key

abbrev pub compare_scopes : Collation → QuotaScopePolicy → QuotaScopePolicy → Bool
compare_scopes c left right =
    c.locale_le (scope_label left.scope_type left.scope_key)
      (scope_label right.scope_type right.scope_key)

abbrev pub compare_rows : Collation → LedgerRow → LedgerRow → Bool
compare_rows c left right =
    c.locale_le (scope_label left.scope_type left.scope_key)
      (scope_label right.scope_type right.scope_key)

-- `orderBy(asc(scopeType), asc(scopeKey))`: the enum lists `user` before `global`.
abbrev pub order_by_scope : Collation → LedgerRow → LedgerRow → Bool
order_by_scope c left right =
    if same_scope_type left.scope_type right.scope_type
    then c.text_le left.scope_key right.scope_key
    else same_scope_type left.scope_type user

unfoldable pub is_request : RepositoryReserveInput → LedgerRow → Bool
is_request input row =
    str_eq row.actor_user_id input.actor_user_id
    && (same_resource row.resource input.resource
        && str_eq row.client_request_id input.client_request_id)

unfoldable pub select_idempotent_rows :
    Collation → RepositoryReserveInput → Database → List LedgerRow
unfolding is_request
select_idempotent_rows c input db = sort (order_by_scope c) (select (is_request input) db.ledger)

unfoldable pub assert_actor_can_reserve : String → M (Unit {0})
assert_actor_can_reserve actor db = elim (first (λ a. str_eq a.id actor) db.accounts) [
  | none ↦ err account_unavailable
  | some account ↦ elim account.deletion_requested_at [
    | none ↦ ok (tt, db)
    | some at ↦ err account_deletion_pending
  ]
]

unfoldable pub find_bucket : ℕ → List BucketRow → Option BucketRow
find_bucket id [] = none
find_bucket id (b ∷ bs) = if b.id == id then some b else find_bucket id bs

-- `update(quotaBucket).set(…).where(eq(quotaBucket.id, id))`; the identifier is the primary key.
unfoldable pub update_bucket : ℕ → (BucketRow → BucketRow) → List BucketRow → List BucketRow
update_bucket id f [] = []
update_bucket id f (b ∷ bs) = if b.id == id then f b ∷ bs else b ∷ update_bucket id f bs

unfoldable pub select_buckets : List ℕ → Database → List BucketRow
unfolding find_bucket
select_buckets [] db = []
select_buckets (id ∷ ids) db = elim (find_bucket id db.buckets) [
  | none ↦ select_buckets ids db
  | some bucket ↦ bucket ∷ select_buckets ids db
]

unfoldable pub latest_reset : Option ℕ → List BucketRow → Option ℕ
latest_reset latest [] = latest
latest_reset none (b ∷ bs) = latest_reset (some b.reset_at) bs
latest_reset (some t) (b ∷ bs) = latest_reset (some (if ltb t b.reset_at then b.reset_at else t)) bs

unfoldable pub reservation_from_rows : List LedgerRow → Bool → M QuotaReservation
unfolding aggregate_status scope_usage select_buckets latest_reset
reservation_from_rows [] idempotent db = err no_ledger_rows
reservation_from_rows (row ∷ rows) idempotent db =
    let buckets = select_buckets (map (λ (r : LedgerRow). r.bucket_id) (row ∷ rows)) db in
    ok (
      record {
        lease_id = row.lease_id;
        actor_user_id = row.actor_user_id;
        client_request_id = row.client_request_id;
        resource = row.resource;
        units = row.units;
        status = aggregate_status (row ∷ rows);
        window = record {
          key = row.window_key;
          reset_at = Option.get_or (latest_reset none buckets) row.reserved_at;
        };
        scopes = map scope_usage buckets;
        idempotent = idempotent;
      },
      db,
    )
