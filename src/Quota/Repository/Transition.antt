-- ===== src/Quota/Repository/Transition.antt =====
-- src/server/quota/repository.ts: `commit` and `release`.
use openvac_web.Prelude.{
  ℕ, ◌+◌, ◌-◌, String, Bool, true, ◌&&◌, Option, none, some, List, [], ◌∷◌, str_eq, ltb, ◌==◌,
  if◌then◌else◌, select, sort, Result, ◌>>=◌, ◌>>◌, pure, gets, ok, err,
}
use openvac_web.Quota.Types.{
  Target, is_reserved, QuotaReservation, BucketRow, LedgerRow, Database, QuotaError, Collation,
  committed, released, to_committed, to_released, reservation_not_found, check_violation,
}
use openvac_web.Quota.Repository.Rows.{
  M, RepositoryTransitionInput, compare_rows, order_by_scope, find_bucket, update_bucket,
  reservation_from_rows,
}
use mathlib.Core.Option

unfoldable pub is_lease : RepositoryTransitionInput → LedgerRow → Bool
is_lease input row =
    row.lease_id == input.lease_id
    && elim input.actor_user_id [ none ↦ true | some actor ↦ str_eq row.actor_user_id actor ]

unfoldable pub select_lease_rows : Collation → RepositoryTransitionInput → Database → List LedgerRow
unfolding is_lease
select_lease_rows c input db =
    sort (compare_rows c) (sort (order_by_scope c) (select (is_lease input) db.ledger))

-- The counters after one row moves. The table's check refuses a negative count.
unfoldable pub settle_bucket : Target → ℕ → BucketRow → BucketRow
settle_bucket to_committed units b = record b {
  reserved_units = b.reserved_units - units;
  committed_units = b.committed_units + units;
}
settle_bucket to_released units b = record b { reserved_units = b.reserved_units - units }

unfoldable pub settle_row : Target → Option String → ℕ → LedgerRow → LedgerRow
settle_row to_committed reason now row = record row {
  status = committed;
  release_reason = none;
  committed_at = some now;
  released_at = none;
}
settle_row to_released reason now row = record row {
  status = released;
  release_reason = some (Option.get_or reason "operation_failed");
  committed_at = none;
  released_at = some now;
}

unfoldable pub update_row : ℕ → (LedgerRow → LedgerRow) → List LedgerRow → List LedgerRow
update_row id f [] = []
update_row id f (r ∷ rs) = if r.id == id then f r ∷ rs else r ∷ update_row id f rs

-- One round of the loop over the lease's rows.
unfoldable pub transition_row : RepositoryTransitionInput → Target → ℕ → LedgerRow → M (Unit {0})
unfolding find_bucket update_bucket update_row settle_bucket settle_row
transition_row input target now row db =
    let moved : Database = record db {
      buckets = update_bucket row.bucket_id (settle_bucket target row.units) db.buckets;
      ledger = update_row row.id (settle_row target input.reason now) db.ledger;
    } in
    let checked : Result QuotaError (Unit × Database) =
      elim (find_bucket row.bucket_id db.buckets) [
        | none ↦ ok (tt, moved)
        | some b ↦ if ltb b.reserved_units row.units then err check_violation else ok (tt, moved)
      ] in
    if is_reserved row.status then checked else ok (tt, db)

unfoldable pub transition_rows :
    RepositoryTransitionInput → Target → ℕ → List LedgerRow → M (Unit {0})
unfolding transition_row
transition_rows input target now [] = pure tt
transition_rows input target now (row ∷ rows) = do
  transition_row input target now row
  transition_rows input target now rows

-- `transitionQuotaReservation`, in the caller's transaction.
unfoldable pub transition_quota_reservation :
    Collation → RepositoryTransitionInput → Target → ℕ → M QuotaReservation
unfolding select_lease_rows transition_rows reservation_from_rows
transition_quota_reservation c input target now db = elim (select_lease_rows c input db) [
  | [] ↦ err (reservation_not_found input.lease_id)
  | row ∷ rows ↦
      (do
        transition_rows input target now (row ∷ rows)
        final_rows ← gets (select_lease_rows c input)
        reservation_from_rows final_rows true)
        db
]

unfoldable pub commit : Collation → RepositoryTransitionInput → ℕ → M QuotaReservation
commit c input now = transition_quota_reservation c input to_committed now

unfoldable pub release : Collation → RepositoryTransitionInput → ℕ → M QuotaReservation
release c input now = transition_quota_reservation c input to_released now
