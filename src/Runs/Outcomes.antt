-- ===== src/Runs/Outcomes.antt =====
-- What the endings of a run in src/server/agent/run-store.ts do to its row and to its lease.
use openvac_web.Runs.Completing.{Completed, complete-Completed}
use openvac_web.Runs.Settle.{expected, update_run}
use openvac_web.Runs.Complete.{
  CompletionStatus, completion_end, CompleteInput, completable, finish_run, complete, as_completed,
  as_incomplete,
}
use openvac_web.Runs.Fail.{
  FailInput, again, already_failed, fail, CancelResult, request_cancellation, accepted,
  already_finished, not_found,
}
use openvac_web.Runs.Leases.{find_run-update_run}
use openvac_web.Quota.Accounting.{IsValid}
use openvac_web.Prelude.{
  ℕ, String, ◌≡◌, refl, ap, subst, ◌∙◌, inl, inr, some, List, [], ◌∷◌, arith, str_eq, Bool-cases,
  Option-cases, Ensures, ok, err,
}
use openvac_web.Quota.Types.{target_status, Collation}
use openvac_web.Runs.Types.{RunRow, RunDatabase, run_not_completable, run_not_failable}
use openvac_web.Runs.Rows.{assert_account_writable, find_turn, find_run}

pub complete_settles :
    (c : Collation) (input : CompleteInput) (now : ℕ) (db s : RunDatabase)
    → IsValid db.quota
    → complete c input now db ≡ ok (tt, s)
    → Completed c input now db s
complete_settles c input now db s v e =
    subst (Ensures (λ _ x. Completed c input now db x)) e (complete-Completed c input now db v)

find_run-id : (id : ℕ) (rs : List RunRow) (r : RunRow) → find_run id rs ≡ some r → r.id ≡ id
unfolding find_run
find_run-id id [] r e = absurd (cc)
find_run-id id (x ∷ xs) r e = ground (arith, find_run-id id xs r)

cancel_marks :
    (user_id : String) (run_id now : ℕ) (db s : RunDatabase)
    → request_cancellation user_id run_id now db ≡ ok (accepted, s)
    → (r : RunRow) × (find_run run_id db.runs ≡ some r)
      × (s ≡ record db {
        runs =
            update_run run_id
              (λ x. record x { cancel_requested_at = some now; updated_at = now })
              db.runs;
      })
unfolding request_cancellation
cancel_marks user_id run_id now db s e = elim (Option-cases (find_run run_id db.runs)) [
  | inl missing ↦ absurd (ground (arith, missing, e))
  | inr (r, found) ↦ (r, found, ground (arith, found, e))
]

-- After an accepted cancellation, `complete` of that run cannot succeed any more: for a user that
-- may write it throws `run_not_completable`, and it settles nothing.
pub cancelled_not_completed :
    (c : Collation) (user_id : String) (now later : ℕ) (input : CompleteInput) (db s : RunDatabase)
    → request_cancellation user_id input.run.run_id now db ≡ ok (accepted, s)
    → assert_account_writable input.user_id s ≡ ok (tt, s)
    → complete c input later s ≡ err run_not_completable
unfolding complete completable
cancelled_not_completed c user_id now later input db s e w =
    let (r, found, s_eq) = cancel_marks user_id input.run.run_id now db s e in
    let marked : find_run input.run.run_id s.runs
        ≡ some (record r { cancel_requested_at = some now; updated_at = now }) =
      ap (λ x. find_run input.run.run_id x.runs) s_eq
      ∙ find_run-update_run input.run.run_id
          (λ x. record x { cancel_requested_at = some now; updated_at = now }) db.runs r (λ x. refl)
          found in
    ground (arith, marked, w)

-- After `complete` has returned, on valid quota accounts, the run has ended for good: `fail` of it
-- throws `run_not_failable`, and a request to cancel it changes nothing.
pub completed_for_good :
    (c : Collation) (input : CompleteInput) (now : ℕ) (db s : RunDatabase)
    → IsValid db.quota
    → complete c input now db ≡ ok (tt, s)
    → ((f : FailInput) (later : ℕ)
        → f.run.run_id ≡ input.run.run_id
        → fail c f later s ≡ err run_not_failable)
      × ((user_id : String) (later : ℕ)
          → (a : CancelResult) × (request_cancellation user_id input.run.run_id later s
              ≡ ok (a, s)))
unfolding fail already_failed again request_cancellation finish_run
completed_for_good c input now db s v e =
    (no_failure input.status k.finished, no_cancel input.status k.finished)
  where
    k : Completed c input now db s
    k = complete_settles c input now db s v e

    no_failure :
        (st : CompletionStatus)
        → find_run input.run.run_id s.runs
          ≡ some (
              finish_run
                (completion_end st)
                (some (target_status (expected (completion_end st))))
                input.answer
                now
                k.run)
        → (f : FailInput) (later : ℕ) → f.run.run_id ≡ input.run.run_id
        → fail c f later s ≡ err run_not_failable
    no_failure as_completed at f later same =
        rw ((ap (λ i. find_run i s.runs) same ∙ at), fail) refl
    no_failure as_incomplete at f later same =
        rw ((ap (λ i. find_run i s.runs) same ∙ at), fail) refl

    no_cancel :
        (st : CompletionStatus)
        → find_run input.run.run_id s.runs
          ≡ some (
              finish_run
                (completion_end st)
                (some (target_status (expected (completion_end st))))
                input.answer
                now
                k.run)
        → (user_id : String) (later : ℕ)
        → (a : CancelResult) × (request_cancellation user_id input.run.run_id later s ≡ ok (a, s))
    no_cancel as_completed at user_id later =
        elim (Option-cases (find_turn k.run.turn_id s.turns)) [
          | inl lost ↦ (not_found, rw (at, lost, request_cancellation) refl)
          | inr (turn, joined) ↦ elim (Bool-cases (str_eq k.run.user_id user_id)) [
            | inl own ↦ (already_finished, rw (at, joined, own, request_cancellation) refl)
            | inr foreign ↦ (not_found, rw (at, joined, foreign, request_cancellation) refl)
          ]
        ]
    no_cancel as_incomplete at user_id later =
        elim (Option-cases (find_turn k.run.turn_id s.turns)) [
          | inl lost ↦ (not_found, rw (at, lost, request_cancellation) refl)
          | inr (turn, joined) ↦ elim (Bool-cases (str_eq k.run.user_id user_id)) [
            | inl own ↦ (already_finished, rw (at, joined, own, request_cancellation) refl)
            | inr foreign ↦ (not_found, rw (at, joined, foreign, request_cancellation) refl)
          ]
        ]
