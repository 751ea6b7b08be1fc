-- ===== src/Runs/Failures.antt =====
-- What `fail` of src/server/agent/run-store.ts does to a run and to its lease.
use openvac_web.Runs.Settle.{settle_input}
use openvac_web.Runs.Fail.{failure_reason, FailInput, mark_failed, mark_settled}
use openvac_web.Prelude.{ℕ, ◌≡◌, ◌⊎◌, Option, none, some}
use openvac_web.Quota.Types.{QuotaReservationStatus, released, to_released}
use openvac_web.Quota.Settlement.{Settled}
use openvac_web.Runs.Types.{RunRow, RunDatabase}
use openvac_web.Runs.Rows.{find_run}

-- The lease of a failed run: there is none, or it is given back.
abbrev pub GivenBack :
    FailInput → ℕ → RunRow → RunDatabase → RunDatabase → Option QuotaReservationStatus → Type 0
GivenBack input now run db s q =
    ((run.answer_quota_lease_id ≡ none) × (q ≡ none) × (s.quota ≡ db.quota))
    ⊎ ((lease : ℕ) × (run.answer_quota_lease_id ≡ some lease)
        × (q ≡ some released)
        × Settled (settle_input lease run.user_id to_released (failure_reason input.status))
            to_released now db.quota s.quota)

-- What a call of `fail` on an active run has done.
pub record Failed (input : FailInput) (now : ℕ) (run : RunRow) (db s : RunDatabase)
    (q : Option QuotaReservationStatus) : Type 0 where
  pub finished :
      find_run input.run.run_id s.runs ≡ some (mark_settled q (mark_failed input now run))
  pub given_back : GivenBack input now run db s q

-- The settlement inside `fail`.
record FailureSettled (input : FailInput) (now : ℕ) (run : RunRow) (db s : RunDatabase)
    (q : Option QuotaReservationStatus) : Type 0 where
  pub given_back : GivenBack input now run db s q
  pub same_runs : s.runs ≡ db.runs
