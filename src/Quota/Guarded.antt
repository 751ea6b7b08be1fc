-- ===== src/Quota/Guarded.antt =====
-- `withReservation` of src/server/quota/service.ts: what a guarded operation costs.
use openvac_web.Prelude.{
  ℕ, ◌+◌, ◌≤◌, ◌<◌, ◌≡◌, refl, true, false, some, List, [], ◌∷◌, ◌++◌, arith, eq_iff, and-eq-true,
  length, select, All,
}
use openvac_web.Quota.Types.{is_reserved, LedgerRow, to_committed, to_released}
use openvac_web.Quota.Repository.Rows.{RepositoryReserveInput, RepositoryTransitionInput}
use openvac_web.Quota.Repository.Transition.{is_lease, settle_row}
use openvac_web.Quota.Accounting.{reserved_of, committed_of, Rows}
use openvac_web.Quota.Settling.{bulk}
use openvac_web.Quota.Settlement.{is_open}
use openvac_web.Quota.Fresh.{IsNew}

-- Two ledgers hold and charge the same against every bucket.
abbrev pub SameSums : List LedgerRow → List LedgerRow → Type 0
SameSums old new =
    (i : ℕ) → (reserved_of i new ≡ reserved_of i old) × (committed_of i new ≡ committed_of i old)

-- What was held in `opened` beyond `old` is charged in `new`, and held no more.
abbrev pub Charges : List LedgerRow → List LedgerRow → List LedgerRow → Type 0
Charges old opened new =
    (i : ℕ)
    → (reserved_of i new ≡ reserved_of i old)
      × (committed_of i new + reserved_of i old ≡ committed_of i old + reserved_of i opened)

module _ (input : RepositoryReserveInput) (tr : RepositoryTransitionInput) (now : ℕ) (lease_id : ℕ)
    (same_lease : tr.lease_id ≡ lease_id)
    (same_actor : tr.actor_user_id ≡ some input.actor_user_id) where
  is_open-new : (r : LedgerRow) → IsNew input lease_id r → is_open tr r ≡ true
  unfolding is_lease
  is_open-new r k =
      rw same_actor
        (ground (arith, k.0, k.2, same_lease, eq_iff r.actor_user_id input.actor_user_id))

  is_open-old : (r : LedgerRow) → r.lease_id < lease_id → is_open tr r ≡ false
  unfolding is_lease
  is_open-old r k = ground arith

  bulk_old :
      (f : LedgerRow → LedgerRow) (n : ℕ) (old : List LedgerRow)
      → Rows n old
      → n ≤ lease_id
      → bulk (is_open tr) f old ≡ old
  unfolding bulk
  bulk_old f n [] k h = refl
  bulk_old f n (r ∷ rs) k h = rw (is_open-old r (omega arith), bulk_old f r.id rs k.4 (omega arith))

  -- Releasing the new rows takes their units out of the reserve and charges none.
  pub released_sums :
      (n : ℕ) (added old : List LedgerRow)
      → All (IsNew input lease_id) added
      → Rows n old
      → n ≤ lease_id
      → SameSums old (bulk (is_open tr) (settle_row to_released tr.reason now) (added ++ old))
  unfolding bulk settle_row reserved_of committed_of
  released_sums n [] old new k h i = rw (bulk_old _ n old k h) (refl, refl)
  released_sums n (r ∷ rs) old new k h i =
      ground (arith, released_sums n rs old new.1 k h i, is_open-new r new.0)

  -- Committing them charges exactly what was held.
  pub committed_sums :
      (n : ℕ) (added old : List LedgerRow)
      → All (IsNew input lease_id) added
      → Rows n old
      → n ≤ lease_id
      → Charges old
          (added ++ old)
          (bulk (is_open tr) (settle_row to_committed tr.reason now) (added ++ old))
  unfolding bulk settle_row reserved_of committed_of
  committed_sums n [] old new k h i = rw (bulk_old _ n old k h) (refl, refl)
  committed_sums n (r ∷ rs) old new k h i =
      ground (arith, committed_sums n rs old new.1 k h i, is_open-new r new.0, new.0.2)

  pub select-new :
      (added old : List LedgerRow)
      → All (IsNew input lease_id) added
      → length added ≤ length (select (is_lease tr) (added ++ old))
  select-new [] old new = omega arith
  select-new (r ∷ rs) old new = ground (
    arith,
    select-new rs old new.1,
    and-eq-true (is_lease tr r) (is_reserved r.status) (is_open-new r new.0),
  )
