-- ===== src/Runs/Completing.antt =====
-- What a call of `complete` of src/server/agent/run-store.ts that returns has done, step by step.
use openvac_web.Runs.Settle.{
  expected, settle_input, settle_lease, settle_answer_quota_in_transaction, update_run,
}
use openvac_web.Runs.Complete.{
  completion_end, CompleteInput, completable, write_answer, finish_run, complete,
}
use openvac_web.Runs.Leases.{find_run-update_run, LeaseSettled, settle_lease-outcome}
use openvac_web.Quota.Accounting.{IsValid}
use openvac_web.Quota.Laws.{transition-Success}
use openvac_web.Prelude.{
  ℕ, String, ◌≡◌, refl, sym, ap, subst, ◌∙◌, inl, inr, true, Option, none, some, arith, Bool-cases,
  Option-cases, Ensures, Ensures-bind, Ensures-mono,
}
use openvac_web.Quota.Types.{QuotaReservationStatus, target_status, Collation}
use openvac_web.Quota.Settlement.{Settled}
use openvac_web.Runs.Types.{is_active, RunRow, RunDatabase}
use openvac_web.Runs.Rows.{assert_account_writable, find_run}

-- What a completed call of `complete` has done.
pub record Completed (c : Collation) (input : CompleteInput) (now : ℕ) (db s : RunDatabase)
    : Type 0 where
  pub run : RunRow
  pub lease : ℕ
  pub found : find_run input.run.run_id db.runs ≡ some run
  pub was_active : is_active run.status ≡ true
  pub not_cancelled : run.cancel_requested_at ≡ none
  pub has_lease : run.answer_quota_lease_id ≡ some lease
  pub finished :
      find_run input.run.run_id s.runs
      ≡ some (
          finish_run
            (completion_end input.status)
            (some (target_status (expected (completion_end input.status))))
            input.answer
            now
            run)
  pub settled :
      Settled
        (settle_input lease input.user_id
          (expected (completion_end input.status))
          "agent_run_incomplete")
        (expected (completion_end input.status))
        now
        db.quota
        s.quota

record Guarded (input : CompleteInput) (lease : ℕ) (db s : RunDatabase) : Type 0 where
  pub run : RunRow
  pub found : find_run input.run.run_id db.runs ≡ some run
  pub was_active : is_active run.status ≡ true
  pub not_cancelled : run.cancel_requested_at ≡ none
  pub has_lease : run.answer_quota_lease_id ≡ some lease
  pub unchanged : s ≡ db

account_unchanged :
    (user_id : String) (db : RunDatabase)
    → Ensures (λ _ s. s ≡ db) (assert_account_writable user_id db)
unfolding assert_account_writable
account_unchanged user_id db = ground arith

completable-Guarded :
    (input : CompleteInput) (db : RunDatabase)
    → Ensures
        (λ lease s. Guarded input lease db s)
        (completable (find_run input.run.run_id db.runs) db)
unfolding completable
completable-Guarded input db = elim (Option-cases (find_run input.run.run_id db.runs)) [
  | inl missing ↦ rw (missing, Ensures) tt
  | inr (r, found) ↦ elim (Bool-cases (is_active r.status)) [
    | inr ended ↦ rw (found, ended, Ensures) tt
    | inl active ↦ elim (Option-cases r.cancel_requested_at) [
      | inr (at, asked) ↦ rw (found, active, asked, Ensures) tt
      | inl wanted ↦ elim (Option-cases r.answer_quota_lease_id) [
        | inl no_lease ↦ rw (found, active, wanted, no_lease, Ensures) tt
        | inr (lease, held) ↦
            let guarded : Guarded input lease db db = record {
              run = r;
              found = found;
              was_active = active;
              not_cancelled = wanted;
              has_lease = held;
              unchanged = refl;
            } in
            rw (found, active, wanted, held, Ensures) guarded
      ]
    ]
  ]
]

Completed-from :
    (c : Collation) (input : CompleteInput) (now lease : ℕ) (db s : RunDatabase)
    (q : Option QuotaReservationStatus)
    → IsValid db.quota
    → Guarded input lease db db
    → q ≡ some (target_status (expected (completion_end input.status)))
    → LeaseSettled c lease input.user_id
        (expected (completion_end input.status))
        "agent_run_incomplete"
        now
        (write_answer input now db)
        s
    → Completed c input now db (record s {
      runs =
          update_run input.run.run_id
            (finish_run (completion_end input.status) q input.answer now)
            s.runs;
    })
unfolding finish_run write_answer
Completed-from c input now lease db s q v g q_eq k =
    let end = completion_end input.status in
    let f : RunRow → RunRow = finish_run end q input.answer now in
    let at : find_run input.run.run_id s.runs ≡ some g.run = rw k.same_runs g.found in
    record {
      run = g.run;
      lease = lease;
      found = g.found;
      was_active = g.was_active;
      not_cancelled = g.not_cancelled;
      has_lease = g.has_lease;
      finished =
          find_run-update_run input.run.run_id f s.runs g.run (λ x. refl) at
          ∙ ap (λ p. some (finish_run end p input.answer now g.run)) q_eq;
      settled =
          let success =
            transition-Success c
              (settle_input lease input.user_id (expected end) "agent_run_incomplete")
              (expected end) now db.quota s.quota k.reservation v k.moved in
          success.settled;
    }

pub complete-Completed :
    (c : Collation) (input : CompleteInput) (now : ℕ) (db : RunDatabase)
    → IsValid db.quota
    → Ensures (λ _ s. Completed c input now db s) (complete c input now db)
unfolding complete settle_answer_quota_in_transaction
complete-Completed c input now db v =
    let end = completion_end input.status in
    Ensures-bind (λ _ s. s ≡ db) (λ _ s. Completed c input now db s)
      (assert_account_writable input.user_id) _ db (account_unchanged input.user_id db)
      λ _ s _ e.
        Ensures-mono (λ _ s'. Completed c input now s s') (λ _ s'. Completed c input now db s') _
          (λ _ s' k. subst (λ x. Completed c input now x s') e k)
          (Ensures-bind (λ lease s'. Guarded input lease s s') (λ _ s'. Completed c input now s s')
            (completable (find_run input.run.run_id s.runs)) _ s (completable-Guarded input s)
            λ lease s' _ g.
              Ensures-bind
                (λ q s''.
                  (q ≡ some (target_status (expected end)))
                  × LeaseSettled c lease input.user_id (expected end) "agent_run_incomplete" now
                      (write_answer input now s') s'')
                (λ _ s''. Completed c input now s s'')
                (settle_lease c lease input.user_id (expected end) "agent_run_incomplete" now) _
                (write_answer input now s')
                (settle_lease-outcome c lease input.user_id (expected end) "agent_run_incomplete"
                  now (write_answer input now s'))
                λ q s'' _ k.
                  Completed-from c input now lease s s'' q (subst (λ x. IsValid x.quota) (sym e) v)
                    (subst (λ x. Guarded input lease s x) g.unchanged g) k.0
                    (subst
                      (λ x.
                        LeaseSettled c lease input.user_id (expected end) "agent_run_incomplete" now
                          (write_answer input now x) s'')
                      g.unchanged k.1))
