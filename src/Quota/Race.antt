-- ===== src/Quota/Race.antt =====
-- Two requests with one `clientRequestId` against src/server/quota/repository.ts: the second one
-- reads the ledger before the first has written, and writes after it.
use openvac_web.Quota.Charged.{
  is_charge, is_charged, insert_ledger_row-refuses, insert_ledger_row-charged, reserve_scope_ends,
}
use openvac_web.Prelude.{
  ℕ, ◌+◌, ◌≡◌, refl, subst, ◌∙◌, inl, inr, Bool, true, false, ◌||◌, List, [], ◌∷◌, ◌++◌, arith,
  Bool-cases, any, insert_sorted, sort, Result, Result-cases, after, Ensures, Ensures-bind, ok, err,
}
use openvac_web.Quota.Types.{
  QuotaScopePolicy, QuotaReservation, LedgerRow, Database, QuotaError, Collation,
}
use openvac_web.Quota.Repository.Rows.{
  RepositoryReserveInput, compare_scopes, select_idempotent_rows, assert_actor_can_reserve,
  reservation_from_rows,
}
use openvac_web.Quota.Repository.Reserve.{
  new_ledger_row, reserve_scope, reserve_scopes, random_uuid, reserve_new, reserve_in_transaction,
  recover_reserve, reserve,
}

-- The row charges the request's scope.
reserve_scopes-refuses :
    (input : RepositoryReserveInput) (lease_id now : ℕ) (scopes : List QuotaScopePolicy)
    (rows : List LedgerRow) (db : Database)
    → is_charged input scopes db.ledger ≡ true
    → Ensures (λ _ _. ⊥) (reserve_scopes input lease_id now scopes rows db)
unfolding reserve_scopes
reserve_scopes-refuses input lease_id now [] rows db h = absurd (cc)
reserve_scopes-refuses input lease_id now (scope ∷ scopes) rows db h =
    elim (Bool-cases (any (is_charge input scope) db.ledger)) [
      | inl here ↦
          Ensures-bind (λ _ _. ⊥) (λ _ _. ⊥) (reserve_scope input lease_id now scope) _ db
            (reserve_scope_ends (λ _ _. ⊥) input lease_id now scope db
              λ b s same.
                insert_ledger_row-refuses input lease_id now s.next_id scope b s (rw same here))
            λ row s _ never. absurd never
      | inr later ↦
          Ensures-bind (λ _ s. is_charged input scopes s.ledger ≡ true) (λ _ _. ⊥)
            (reserve_scope input lease_id now scope) _ db
            (reserve_scope_ends (λ _ s. is_charged input scopes s.ledger ≡ true) input lease_id now
              scope db
              λ b s same.
                insert_ledger_row-charged input
                  (new_ledger_row input lease_id now scope b s.next_id) scopes s
                  (rw same (ground arith)))
            λ row s _ k. reserve_scopes-refuses input lease_id now scopes (rows ++ row ∷ []) s k
    ]

any-charged-insert_sorted :
    (q : QuotaScopePolicy → Bool) (le : QuotaScopePolicy → QuotaScopePolicy → Bool)
    (a : QuotaScopePolicy) (xs : List QuotaScopePolicy)
    → any q (insert_sorted le a xs) ≡ (q a || any q xs)
any-charged-insert_sorted q le a [] = refl
any-charged-insert_sorted q le a (x ∷ xs) = ground (arith, any-charged-insert_sorted q le a xs)

any-charged-sort :
    (q : QuotaScopePolicy → Bool) (le : QuotaScopePolicy → QuotaScopePolicy → Bool)
    (xs : List QuotaScopePolicy)
    → any q (sort le xs) ≡ any q xs
any-charged-sort q le [] = refl
any-charged-sort q le (x ∷ xs) =
    rw (any-charged-insert_sorted q le x (sort le xs), any-charged-sort q le xs)

reserve_new-refuses :
    (c : Collation) (input : RepositoryReserveInput) (now : ℕ) (db : Database)
    → is_charged input input.scopes db.ledger ≡ true
    → Ensures (λ _ _. ⊥) (reserve_new c input now db)
unfolding reserve_new random_uuid
reserve_new-refuses c input now db h =
    let scopes = sort (compare_scopes c) input.scopes in
    let start : Database = record db { next_id = db.next_id + 1 } in
    Ensures-bind (λ _ _. ⊥) (λ _ _. ⊥) (reserve_scopes input db.next_id now scopes [])
      (λ rows. reservation_from_rows rows false) start
      (reserve_scopes-refuses input db.next_id now scopes [] start
        (any-charged-sort _ (compare_scopes c) input.scopes ∙ h))
      (λ rows s _ never. absurd never)

-- The answer keeps the state, or there is none.
abbrev Keeps : Database → Result QuotaError (QuotaReservation × Database) → Type 0
Keeps db = Ensures (λ _ s. s ≡ db)

answer-Keeps :
    (rows : List LedgerRow) (db : Database) → Keeps db (reservation_from_rows rows true db)
unfolding reservation_from_rows
answer-Keeps [] db = tt
answer-Keeps (r ∷ rs) db = refl

never-Keeps :
    (db : Database) (r : Result QuotaError (QuotaReservation × Database))
    → Ensures (λ _ _. ⊥) r
    → Keeps db r
never-Keeps db (ok (a, s)) h = absurd h
never-Keeps db (err e) h = tt

reserve_in_transaction-Keeps :
    (c : Collation) (input : RepositoryReserveInput) (now : ℕ) (seen db : Database)
    → is_charged input input.scopes db.ledger ≡ true
    → Keeps db (reserve_in_transaction c input now seen db)
unfolding reserve_in_transaction assert_actor_can_reserve
reserve_in_transaction-Keeps c input now seen db h = ground (
  arith,
  never-Keeps db (reserve_new c input now db) (reserve_new-refuses c input now db h),
  answer-Keeps (select_idempotent_rows c input seen) db,
)

recover_reserve-Keeps :
    (c : Collation) (input : RepositoryReserveInput) (db : Database) (e : QuotaError)
    → Keeps db (recover_reserve c input db e)
unfolding recover_reserve
recover_reserve-Keeps c input db e =
    ground (arith, answer-Keeps (select_idempotent_rows c input db) db)

after-Keeps :
    (db : Database) (r : Result QuotaError (QuotaReservation × Database))
    → Keeps db r
    → after db r ≡ db
after-Keeps db (ok (a, s)) h = h
after-Keeps db (err e) h = refl

-- If the ledger already has a row of the actor's request, in the same resource and for one of the
-- request's scopes, then `reserve` changes nothing, whatever older snapshot its first select read:
-- no race charges a request twice.
pub reserve_charged_once :
    (c : Collation) (input : RepositoryReserveInput) (now : ℕ) (seen db : Database)
    → is_charged input input.scopes db.ledger ≡ true
    → after db (reserve c input now seen db) ≡ db
unfolding reserve
reserve_charged_once c input now seen db h =
    elim (Result-cases (reserve_in_transaction c input now seen db)) [
      | inl (r, e) ↦
          rw (e, reserve)
            (after-Keeps db (ok r)
              (subst (Keeps db) e (reserve_in_transaction-Keeps c input now seen db h)))
      | inr (x, e) ↦ rw (e, reserve) (after-Keeps db _ (recover_reserve-Keeps c input db x))
    ]
