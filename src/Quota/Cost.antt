-- ===== src/Quota/Cost.antt =====
-- The whole of `withReservation` of src/server/quota/service.ts, around an operation that leaves
-- the quota tables alone.
use openvac_web.Quota.Reserved.{Reserved, service_reserve-Reserved, release_fresh, commit_fresh}
use openvac_web.Quota.Guarded.{SameSums, Charges}
use openvac_web.Prelude.{
  ℕ, ◌≡◌, refl, ap, subst, ◌∙◌, inl, inr, true, false, none, some, List, arith, Bool-cases, Result,
  Ensures, ok, err,
}
use openvac_web.Quota.Types.{is_reserved, QuotaReservation, LedgerRow, Database, reserved}
use openvac_web.Quota.Repository.Transition.{commit, release}
use openvac_web.Quota.Accounting.{IsValid}
use openvac_web.Quota.Fresh.{Outcome}
use openvac_web.Quota.Service.{
  ReserveQuotaInput, ServiceError, Host, repository_input, service_reserve, operation_failed,
  aggregate, commit_failed, commit_and_release_failed,
}
use openvac_web.Quota.WithReservation.{
  lease_input, release_after, run_reserved, after_reserve, with_reservation,
}

SameSums-refl : (l : List LedgerRow) → SameSums l l
SameSums-refl l i = (refl, refl)

module _ {F T : Type 0} (host : Host) (input : ReserveQuotaInput) (now : ℕ)
    (operation : QuotaReservation → Database → Result F T × Database) where
  after_reserve_fresh :
      (res : QuotaReservation) (s : Database)
      → res.idempotent ≡ false
      → res.status ≡ reserved
      → after_reserve host input now operation res s ≡ run_reserved host input res now operation s
  unfolding after_reserve
  after_reserve_fresh res s replay st = simp (replay, st)

  after_reserve_replay :
      (res : QuotaReservation) (s : Database)
      → res.idempotent ≡ true
      → (after_reserve host input now operation res s).1 ≡ s
  unfolding after_reserve
  after_reserve_replay res s replay = elim (Bool-cases (is_reserved res.status)) [
    | inl busy ↦ simp (replay, busy)
    | inr used ↦ simp (replay, used)
  ]

  with_reservation_step :
      (seen db : Database) (r : Result (ServiceError F) (QuotaReservation × Database))
      → service_reserve host input now seen db ≡ r
      → with_reservation host input now seen operation db ≡ elim r [
        | err e ↦ (err e, db)
        | ok (res, s) ↦ after_reserve host input now operation res s
      ]
  unfolding with_reservation
  with_reservation_step seen db r h = λ i. elim (h i) [
    | err e ↦ (err e, db)
    | ok (res, s) ↦ after_reserve host input now operation res s
  ]

  -- What `run_reserved` does with the operation's outcome.
  abbrev settle_outcome :
      QuotaReservation → Result F T × Database → Result (ServiceError F) T × Database
  settle_outcome res (err failure, s) =
      release_after host input res now (operation_failed failure) (aggregate failure) s
  settle_outcome res (ok result, s) =
      elim (commit host.collation (lease_input res input none) now s) [
        | ok (committed_reservation, x) ↦ (ok result, x)
        | err error ↦
            release_after host input res now (commit_failed error) (commit_and_release_failed error)
              s
      ]

  run_reserved_outcome :
      (res : QuotaReservation) (s : Database) (o : Result F T × Database)
      → operation res s ≡ o
      → run_reserved host input res now operation s ≡ settle_outcome res o
  unfolding run_reserved
  run_reserved_outcome res s (err failure, x) e = ground (arith, e)
  run_reserved_outcome res s (ok result, x) e = ground (arith, e)

  run_reserved_failed :
      (res : QuotaReservation) (s x : Database) (r : QuotaReservation) (failure : F)
      → operation res s ≡ (err failure, s)
      → release host.collation (lease_input res input (some "operation_failed")) now s ≡ ok (r, x)
      → run_reserved host input res now operation s ≡ (err (operation_failed failure), x)
  unfolding release_after
  run_reserved_failed res s x r failure o e = run_reserved_outcome res s (err failure, s) o ∙ λ i.
      elim (e i) [
        | ok (released_reservation, db') ↦ (err (operation_failed failure), db')
        | err release_error ↦ (err (aggregate failure release_error), s)
      ]

  run_reserved_done :
      (res : QuotaReservation) (s x : Database) (r : QuotaReservation) (result : T)
      → operation res s ≡ (ok result, s)
      → commit host.collation (lease_input res input none) now s ≡ ok (r, x)
      → run_reserved host input res now operation s ≡ (ok result, x)
  run_reserved_done res s x r result o e = run_reserved_outcome res s (ok result, s) o ∙ λ i.
      elim (e i) [
        | ok (committed_reservation, db₂) ↦ (ok result, db₂)
        | err error ↦
            release_after host input res now (commit_failed error) (commit_and_release_failed error)
              s
      ]

-- The final state, whatever the reservation gave.
module _ {F T : Type 0} (host : Host) (input : ReserveQuotaInput) (now : ℕ) (seen db : Database)
    (operation : QuotaReservation → Database → Result F T × Database) (v : IsValid db) where
  failed_cases :
      (r : Result (ServiceError F) (QuotaReservation × Database))
      → ((res : QuotaReservation) (s : Database)
          → (failure : F) × (operation res s ≡ (err failure, s)))
      → service_reserve host input now seen db ≡ r
      → Ensures (Reserved host input db) r
      → IsValid (with_reservation host input now seen operation db).1
        × SameSums db.ledger (with_reservation host input now seen operation db).1.ledger
  failed_cases (err e) fails h k =
      rw (with_reservation_step host input now operation seen db (err e) h)
        (v, SameSums-refl db.ledger)
  failed_cases (ok (res, s)) fails h (vs, inl (replay, same)) =
      let unchanged : (with_reservation host input now seen operation db).1 ≡ db =
        ap (λ x. x.1) (with_reservation_step host input now operation seen db (ok (res, s)) h)
        ∙ after_reserve_replay host input now operation res s replay
        ∙ same in
      rw unchanged (v, SameSums-refl db.ledger)
  failed_cases (ok (res, s)) fails h (vs, inr fresh) =
      let (failure, o) = fails res s in
      let (r, x, e, vx, sums) =
        release_fresh host input now db s res v vs fresh (some "operation_failed") in
      let final =
        with_reservation_step host input now operation seen db (ok (res, s)) h
        ∙ after_reserve_fresh host input now operation res s fresh.not_replay fresh.open_status
        ∙ run_reserved_failed host input now operation res s x r failure o e in
      rw final (vx, sums)

-- A guarded operation that throws, and leaves the quota tables alone, costs nothing: on valid
-- accounts, whatever the reservation gave, the accounts after `withReservation` are valid, and
-- against every bucket as many units are held and charged as before.
pub with_reservation_failed :
    {F T : Type 0} (host : Host) (input : ReserveQuotaInput) (now : ℕ) (seen db : Database)
    (operation : QuotaReservation → Database → Result F T × Database)
    → IsValid db
    → ((res : QuotaReservation) (s : Database)
        → (failure : F) × (operation res s ≡ (err failure, s)))
    → IsValid (with_reservation host input now seen operation db).1
      × SameSums db.ledger (with_reservation host input now seen operation db).1.ledger
with_reservation_failed {F} host input now seen db operation v fails =
    failed_cases host input now seen db operation v (service_reserve host input now seen db) fails
      refl (service_reserve-Reserved F host input now seen db v)

-- A guarded operation that returns, and leaves the quota tables alone, is charged exactly: if its
-- reservation is not a replay, then on valid accounts `withReservation` returns the operation's
-- result, the accounts are valid, no bucket holds more units than before, and each is charged what
-- the reservation held against it.
pub with_reservation_done :
    {F T : Type 0} (host : Host) (input : ReserveQuotaInput) (now : ℕ) (seen db s : Database)
    (operation : QuotaReservation → Database → Result F T × Database) (res : QuotaReservation)
    (result : T)
    → IsValid db
    → service_reserve {F = F} host input now seen db ≡ ok (res, s)
    → res.idempotent ≡ false
    → operation res s ≡ (ok result, s)
    → ((with_reservation host input now seen operation db).0 ≡ ok result)
      × IsValid (with_reservation host input now seen operation db).1
      × Charges db.ledger s.ledger (with_reservation host input now seen operation db).1.ledger
with_reservation_done {F} host input now seen db s operation res result v h new o =
    fresh_done reserved_state.1
  where
    reserved_state : Reserved host input db res s
    reserved_state =
        subst (Ensures (Reserved host input db)) h
          (service_reserve-Reserved F host input now seen db v)

    fresh_done :
        Outcome (repository_input host input) db res s
        → ((with_reservation host input now seen operation db).0 ≡ ok result)
          × IsValid (with_reservation host input now seen operation db).1
          × Charges db.ledger s.ledger (with_reservation host input now seen operation db).1.ledger
    fresh_done (inl (replay, same)) = absurd (cc)
    fresh_done (inr fresh) =
        let (r, x, e, vx, sums) =
          commit_fresh host input now db s res v reserved_state.0 fresh none in
        let final =
          with_reservation_step host input now operation seen db (ok (res, s)) h
          ∙ after_reserve_fresh host input now operation res s fresh.not_replay fresh.open_status
          ∙ run_reserved_done host input now operation res s x r result o e in
        rw final (refl, vx, sums)
