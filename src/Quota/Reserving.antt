-- ===== src/Quota/Reserving.antt =====
-- `reserve` of src/server/quota/repository.ts keeps the accounts, step by step.
use openvac_web.Quota.Buckets.{
  Ready, Locked, insert_bucket-Ready, lock_bucket-Locked, reconcile_bucket-Locked, charge-IsValid,
}
use openvac_web.Prelude.{
  ℕ, ◌+◌, ◌≡◌, refl, subst, inl, inr, Bool, true, false, List, [], ◌∷◌, ◌++◌, arith, sort, Result,
  Result-cases, ◌>>=◌, ◌>>◌, gets, after, Ensures, Ensures-bind, ok, err,
}
use openvac_web.Quota.Types.{
  QuotaScopePolicy, QuotaReservation, BucketRow, LedgerRow, Database, QuotaError, Collation,
}
use openvac_web.Quota.Repository.Rows.{
  RepositoryReserveInput, compare_scopes, select_idempotent_rows, assert_actor_can_reserve,
  reservation_from_rows,
}
use openvac_web.Quota.Repository.Reserve.{
  insert_bucket, lock_bucket, reconcile_bucket, take_units, new_ledger_row, insert_ledger_row,
  reserve_scope, reserve_scopes, random_uuid, reserve_new, reserve_in_transaction, recover_reserve,
  reserve,
}
use openvac_web.Quota.Accounting.{IsValid, Buckets-mono, Rows-mono}

charge_scope-Ready :
    (input : RepositoryReserveInput) (lease_id now : ℕ) (scope : QuotaScopePolicy) (b : BucketRow)
    (db : Database)
    → Locked lease_id b db
    → Ensures
        (λ _ s. Ready lease_id s)
        ((do
          take_units input scope b
          id ← gets (λ (s : Database). s.next_id)
          insert_ledger_row (new_ledger_row input lease_id now scope b id))
          db)
unfolding take_units insert_ledger_row new_ledger_row
charge_scope-Ready input lease_id now scope b db (h, young) =
    ground (
      arith,
      charge-IsValid (new_ledger_row input lease_id now scope b db.next_id) b db h,
      h.0,
      h.1,
    )

reserve_scope-Ready :
    (input : RepositoryReserveInput) (lease_id now : ℕ) (scope : QuotaScopePolicy) (db : Database)
    → Ready lease_id db
    → Ensures (λ _ s. Ready lease_id s) (reserve_scope input lease_id now scope db)
unfolding reserve_scope
reserve_scope-Ready input lease_id now scope db v =
    Ensures-bind (λ _ s. Ready lease_id s) (λ _ s. Ready lease_id s) (insert_bucket input scope) _
      db (insert_bucket-Ready lease_id input scope db v)
      λ _ s₁ _ v₁.
        Ensures-bind (Locked lease_id) (λ _ s. Ready lease_id s) (lock_bucket input scope) _ s₁
          (lock_bucket-Locked lease_id input scope s₁ v₁)
          λ existing s₂ _ h₂.
            Ensures-bind (Locked lease_id) (λ _ s. Ready lease_id s)
              (reconcile_bucket scope existing) _ s₂
              (reconcile_bucket-Locked lease_id scope existing s₂ h₂)
              λ b s₃ _ h₃. charge_scope-Ready input lease_id now scope b s₃ h₃

reserve_scopes-Ready :
    (input : RepositoryReserveInput) (lease_id now : ℕ) (scopes : List QuotaScopePolicy)
    (rows : List LedgerRow) (db : Database)
    → Ready lease_id db
    → Ensures (λ _ s. Ready lease_id s) (reserve_scopes input lease_id now scopes rows db)
unfolding reserve_scopes
reserve_scopes-Ready input lease_id now [] rows db v = v
reserve_scopes-Ready input lease_id now (scope ∷ scopes) rows db v =
    Ensures-bind (λ _ s. Ready lease_id s) (λ _ s. Ready lease_id s)
      (reserve_scope input lease_id now scope) _ db
      (reserve_scope-Ready input lease_id now scope db v)
      λ row s _ v'. reserve_scopes-Ready input lease_id now scopes (rows ++ row ∷ []) s v'

-- Building the answer changes nothing.
pub reservation_from_rows-keeps :
    (rows : List LedgerRow) (idempotent : Bool) (db : Database)
    → Ensures (λ _ s. s ≡ db) (reservation_from_rows rows idempotent db)
unfolding reservation_from_rows
reservation_from_rows-keeps [] idempotent db = tt
reservation_from_rows-keeps (r ∷ rs) idempotent db = refl

next_id-IsValid : (db : Database) → IsValid db → IsValid (record db { next_id = db.next_id + 1 })
next_id-IsValid db v = record {
  buckets_sound =
      Buckets-mono db.ledger db.next_id (db.next_id + 1) db.buckets (omega arith) v.buckets_sound;
  rows_sound = Rows-mono db.next_id (db.next_id + 1) db.ledger (omega arith) v.rows_sound;
}

-- A body that ends by building the answer.
answer-IsValid :
    (rows : List LedgerRow) (idempotent : Bool) (db : Database)
    → IsValid db
    → Ensures (λ _ s. IsValid s) (reservation_from_rows rows idempotent db)
unfolding reservation_from_rows
answer-IsValid [] idempotent db v = tt
answer-IsValid (r ∷ rs) idempotent db v = v

reserve_new-IsValid :
    (c : Collation) (input : RepositoryReserveInput) (now : ℕ) (db : Database)
    → IsValid db
    → Ensures (λ _ s. IsValid s) (reserve_new c input now db)
unfolding reserve_new random_uuid
reserve_new-IsValid c input now db v =
    let start : Database = record db { next_id = db.next_id + 1 } in
    let scopes = sort (compare_scopes c) input.scopes in
    Ensures-bind (λ _ s. Ready db.next_id s) (λ _ s. IsValid s)
      (reserve_scopes input db.next_id now scopes []) (λ rows. reservation_from_rows rows false)
      start
      (reserve_scopes-Ready input db.next_id now scopes [] start
        (next_id-IsValid db v, omega arith))
      (λ rows s _ v'. answer-IsValid rows false s v'.0)

reserve_in_transaction-IsValid :
    (c : Collation) (input : RepositoryReserveInput) (now : ℕ) (seen db : Database)
    → IsValid db
    → Ensures (λ _ s. IsValid s) (reserve_in_transaction c input now seen db)
unfolding reserve_in_transaction assert_actor_can_reserve
reserve_in_transaction-IsValid c input now seen db v = ground (
  arith,
  reserve_new-IsValid c input now db v,
  answer-IsValid (select_idempotent_rows c input seen) true db v,
)

after-IsValid :
    (db : Database) (r : Result QuotaError (QuotaReservation × Database))
    → IsValid db
    → Ensures (λ _ s. IsValid s) r
    → IsValid (after db r)
after-IsValid db (ok (a, s)) v h = h
after-IsValid db (err e) v h = v

recover_reserve-IsValid :
    (c : Collation) (input : RepositoryReserveInput) (db : Database) (e : QuotaError)
    → IsValid db
    → Ensures (λ _ s. IsValid s) (recover_reserve c input db e)
unfolding recover_reserve
recover_reserve-IsValid c input db e v =
    ground (arith, answer-IsValid (select_idempotent_rows c input db) true db v)

-- Whatever `reserve` does with a request, an older snapshot of the tables and the state that its
-- writes meet, the state after it is valid again if the state before it was: each bucket counts
-- exactly the units that its ledger rows hold in reserve and have charged, the two counters
-- together stay within the bucket's limit, and the rows keep their keys.
pub reserve-IsValid :
    (c : Collation) (input : RepositoryReserveInput) (now : ℕ) (seen db : Database)
    → IsValid db
    → IsValid (after db (reserve c input now seen db))
unfolding reserve
reserve-IsValid c input now seen db v =
    elim (Result-cases (reserve_in_transaction c input now seen db)) [
      | inl (r, e) ↦
          rw (e, reserve)
            (after-IsValid db (ok r) v (
              subst (Ensures (λ _ s. IsValid s)) e
                (reserve_in_transaction-IsValid c input now seen db v)))
      | inr (x, e) ↦ rw (e, reserve) (after-IsValid db _ v (recover_reserve-IsValid c input db x v))
    ]
