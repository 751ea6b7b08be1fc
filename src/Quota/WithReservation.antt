-- ===== src/Quota/WithReservation.antt =====
-- `withReservation` of src/server/quota/service.ts. The guarded operation is a parameter, which may
-- write to the tables, return or throw.
use openvac_web.Quota.Service.{
  ReserveQuotaInput, ServiceError, Host, service_reserve, request_in_progress, request_already_used,
  operation_failed, aggregate, commit_failed, commit_and_release_failed,
}
use openvac_web.Prelude.{
  ℕ, String, not, ◌&&◌, ◌||◌, Option, none, some, if◌then◌else◌, Result, ok, err,
}
use openvac_web.Quota.Types.{is_reserved, QuotaReservation, Database, QuotaError}
use openvac_web.Quota.Repository.Rows.{RepositoryTransitionInput}
use openvac_web.Quota.Repository.Transition.{commit, release}

abbrev pub lease_input :
    QuotaReservation → ReserveQuotaInput → Option String → RepositoryTransitionInput
lease_input reservation input reason = record {
  lease_id = reservation.lease_id;
  actor_user_id = some input.user_id;
  reason = reason;
}

-- The `catch` of `withReservation`, around what the operation or the commit threw.
unfoldable pub release_after :
    {F T : Type 0}
    → Host
    → ReserveQuotaInput
    → QuotaReservation
    → ℕ
    → ServiceError F
    → (QuotaError → ServiceError F)
    → Database
    → Result (ServiceError F) T × Database
release_after host input reservation now error both db =
    elim (release host.collation (lease_input reservation input (some "operation_failed")) now db) [
      | ok (released_reservation, db') ↦ (err error, db')
      | err release_error ↦ (err (both release_error), db)
    ]

-- The `try` of `withReservation`: the operation, then the commit.
unfoldable pub run_reserved :
    {F T : Type 0}
    → Host
    → ReserveQuotaInput
    → QuotaReservation
    → ℕ
    → (QuotaReservation → Database → Result F T × Database)
    → Database
    → Result (ServiceError F) T × Database
unfolding release_after
run_reserved host input reservation now operation db =
    let (outcome, db₁) = operation reservation db in
    elim outcome [
      | err failure ↦
          release_after host input reservation now (operation_failed failure) (aggregate failure)
            db₁
      | ok result ↦ elim (commit host.collation (lease_input reservation input none) now db₁) [
        | ok (committed_reservation, db₂) ↦ (ok result, db₂)
        | err error ↦
            release_after host input reservation now (commit_failed error)
              (commit_and_release_failed error) db₁
      ]
    ]

-- `withReservation` from its reservation on: a replay never runs the operation.
unfoldable pub after_reserve :
    {F T : Type 0}
    → Host
    → ReserveQuotaInput
    → ℕ
    → (QuotaReservation → Database → Result F T × Database)
    → QuotaReservation
    → Database
    → Result (ServiceError F) T × Database
unfolding run_reserved
after_reserve host input now operation reservation db =
    if reservation.idempotent && is_reserved reservation.status
    then (err request_in_progress, db)
    else if reservation.idempotent || not (is_reserved reservation.status)
    then (err (request_already_used reservation.status), db)
    else run_reserved host input reservation now operation db

-- `QuotaService.withReservation`.
unfoldable pub with_reservation :
    {F T : Type 0}
    → Host
    → ReserveQuotaInput
    → ℕ
    → Database
    → (QuotaReservation → Database → Result F T × Database)
    → Database
    → Result (ServiceError F) T × Database
unfolding after_reserve service_reserve
with_reservation host input now seen operation db = elim (service_reserve host input now seen db) [
  | err error ↦ (err error, db)
  | ok (reservation, db₁) ↦ after_reserve host input now operation reservation db₁
]
