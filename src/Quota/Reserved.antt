-- ===== src/Quota/Reserved.antt =====
-- A reservation through src/server/quota/service.ts, and what becomes of a fresh one when it is released
-- or committed.
use openvac_web.Quota.Guarded.{SameSums, Charges, released_sums, committed_sums, select-new}
use openvac_web.Prelude.{
  ℕ, ◌<◌, String, ◌≡◌, refl, sym, ap, subst, ◌∙◌, Option, ◌++◌, arith, length, select, Result,
  after, Ensures, ok, err,
}
use openvac_web.Quota.Types.{
  QuotaReservation, Database, QuotaError, Collation, to_committed, to_released,
}
use openvac_web.Quota.Repository.Rows.{RepositoryReserveInput}
use openvac_web.Quota.Repository.Reserve.{reserve}
use openvac_web.Quota.Repository.Transition.{
  is_lease, select_lease_rows, settle_row, commit, release,
}
use openvac_web.Quota.Accounting.{IsValid}
use openvac_web.Quota.Reserving.{reserve-IsValid}
use openvac_web.Quota.Settling.{bulk}
use openvac_web.Quota.Settlement.{is_open, length-lease_rows, transition_settles}
use openvac_web.Quota.Fresh.{IsFresh, Outcome, reserve-Outcome}
use openvac_web.Quota.Service.{
  ReserveQuotaInput, Host, repository_input, lift_quota, service_reserve,
}
use openvac_web.Quota.WithReservation.{lease_input}

reserve-IsValid_ok :
    (c : Collation) (input : RepositoryReserveInput) (now : ℕ) (seen db s : Database)
    (res : QuotaReservation)
    → IsValid db
    → reserve c input now seen db ≡ ok (res, s)
    → IsValid s
reserve-IsValid_ok c input now seen db s res v e =
    subst (λ r. IsValid (after db r)) e (reserve-IsValid c input now seen db v)

-- What a reservation through the service gives.
abbrev pub Reserved : Host → ReserveQuotaInput → Database → QuotaReservation → Database → Type 0
Reserved host input db res s = IsValid s × Outcome (repository_input host input) db res s

lift_quota-Reserved :
    (F : Type 0) (host : Host) (input : ReserveQuotaInput) (now : ℕ) (seen db : Database)
    → IsValid db
    → (r : Result QuotaError (QuotaReservation × Database))
    → reserve host.collation (repository_input host input) now seen db ≡ r
    → Ensures (Reserved host input db) (lift_quota {F = F} r)
unfolding lift_quota
lift_quota-Reserved F host input now seen db v (err e) h = tt
lift_quota-Reserved F host input now seen db v (ok (res, s)) h = (
  reserve-IsValid_ok host.collation (repository_input host input) now seen db s res v h,
  subst (Ensures (Outcome (repository_input host input) db)) h
      (reserve-Outcome host.collation (repository_input host input) now seen db),
)

pub service_reserve-Reserved :
    (F : Type 0) (host : Host) (input : ReserveQuotaInput) (now : ℕ) (seen db : Database)
    → IsValid db
    → Ensures (Reserved host input db) (service_reserve {F = F} host input now seen db)
unfolding service_reserve
service_reserve-Reserved F host input now seen db v = ground (
  arith,
  lift_quota-Reserved F host input now seen db v
      (reserve host.collation (repository_input host input) now seen db) refl,
)

module _ (host : Host) (input : ReserveQuotaInput) (now : ℕ) (db s : Database)
    (res : QuotaReservation) (v : IsValid db) (vs : IsValid s)
    (fresh : IsFresh (repository_input host input) db res s) where
  lease_nonempty :
      (reason : Option String)
      → 0 < length (select_lease_rows host.collation (lease_input res input reason) s)
  unfolding repository_input
  lease_nonempty reason =
      let tr = lease_input res input reason in
      omega (
        arith,
        length-lease_rows host.collation tr s,
        ap (λ l. length (select (is_lease tr) l)) fresh.grown.ledger,
        select-new (repository_input host input) tr now db.next_id fresh.lease refl
            fresh.grown.added db.ledger fresh.grown.each,
        fresh.grown.counted,
      )

  -- Releasing a fresh reservation succeeds, and puts the accounts back.
  pub release_fresh :
      (reason : Option String)
      → (r : QuotaReservation) × (x : Database) × (release host.collation
            (lease_input res input reason)
            now
            s
          ≡ ok (r, x))
        × IsValid x
        × SameSums db.ledger x.ledger
  unfolding release repository_input
  release_fresh reason =
      let tr = lease_input res input reason in
      let (r, x, e, k) =
        transition_settles host.collation tr to_released now s vs (lease_nonempty reason) in
      (
        r,
        x,
        e,
        k.valid,
        subst (SameSums db.ledger)
            (sym (
              k.ledger_bulk
              ∙ ap (bulk (is_open tr) (settle_row to_released reason now)) fresh.grown.ledger))
            (released_sums (repository_input host input) tr now db.next_id fresh.lease refl
              db.next_id fresh.grown.added db.ledger fresh.grown.each v.rows_sound (omega arith)),
      )

  -- Committing it succeeds, and charges what was held.
  pub commit_fresh :
      (reason : Option String)
      → (r : QuotaReservation) × (x : Database) × (commit host.collation
            (lease_input res input reason)
            now
            s
          ≡ ok (r, x))
        × IsValid x
        × Charges db.ledger s.ledger x.ledger
  unfolding commit repository_input
  commit_fresh reason =
      let tr = lease_input res input reason in
      let (r, x, e, k) =
        transition_settles host.collation tr to_committed now s vs (lease_nonempty reason) in
      let l = fresh.grown.ledger in
      (
        r,
        x,
        e,
        k.valid,
        subst (λ o. Charges db.ledger o x.ledger) (sym l)
            (subst (Charges db.ledger (fresh.grown.added ++ db.ledger))
              (sym (k.ledger_bulk ∙ ap (bulk (is_open tr) (settle_row to_committed reason now)) l))
              (committed_sums (repository_input host input) tr now db.next_id fresh.lease refl
                db.next_id fresh.grown.added db.ledger fresh.grown.each v.rows_sound
                (omega arith))),
      )
