-- ===== src/Runs/Leases.antt =====
-- The lease of a run when the run's transaction settles it: src/server/agent/run-settlement.ts, and the
-- row of the run after an update.
use openvac_web.Runs.Settle.{in_quota, settled_as, settle_input, settle_lease, update_run}
use openvac_web.Prelude.{
  ℕ, String, ◌≡◌, refl, inl, inr, true, some, List, [], ◌∷◌, arith, Bool-cases, Result-cases,
  Ensures, ok,
}
use openvac_web.Quota.Types.{Target, target_status, QuotaReservation, Collation}
use openvac_web.Quota.Repository.Transition.{transition_quota_reservation}
use openvac_web.Runs.Types.{RunRow, RunDatabase}
use openvac_web.Runs.Rows.{find_run}

pub find_run-update_run :
    (id : ℕ) (f : RunRow → RunRow) (rs : List RunRow) (r : RunRow)
    → ((x : RunRow) → (f x).id ≡ x.id)
    → find_run id rs ≡ some r
    → find_run id (update_run id f rs) ≡ some (f r)
unfolding find_run update_run
find_run-update_run id f [] r same e = absurd (cc)
find_run-update_run id f (x ∷ xs) r same e =
    ground (arith, same x, find_run-update_run id f xs r same)

-- The quota's side of a transaction that settles a lease.
pub record LeaseSettled (c : Collation) (lease : ℕ) (user_id : String) (t : Target)
    (reason : String) (now : ℕ) (db s : RunDatabase) : Type 0 where
  pub reservation : QuotaReservation
  pub moved :
      transition_quota_reservation c (settle_input lease user_id t reason) t now db.quota
      ≡ ok (reservation, s.quota)
  pub as_expected : settled_as t reservation ≡ true
  pub same_runs : s.runs ≡ db.runs

pub settle_lease-outcome :
    (c : Collation) (lease : ℕ) (user_id : String) (t : Target) (reason : String) (now : ℕ)
    (db : RunDatabase)
    → Ensures
        (λ q s. (q ≡ some (target_status t)) × LeaseSettled c lease user_id t reason now db s)
        (settle_lease c lease user_id t reason now db)
unfolding settle_lease in_quota
settle_lease-outcome c lease user_id t reason now db =
    elim (Result-cases
      (transition_quota_reservation c (settle_input lease user_id t reason) t now db.quota)) [
        | inr (x, e) ↦ rw (e, Ensures) tt
        | inl ((res, q), e) ↦ elim (Bool-cases (settled_as t res)) [
          | inr bad ↦ rw (e, bad, Ensures) tt
          | inl good ↦
              let settled : LeaseSettled c lease user_id t reason now db (record db { quota = q }) =
                record { reservation = res; moved = e; as_expected = good; same_runs = refl } in
              rw (e, good, Ensures) (refl, settled)
        ]
      ]
