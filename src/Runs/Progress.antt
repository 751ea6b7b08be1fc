-- ===== src/Runs/Progress.antt =====
-- The endings of a run keep the order of runs: `complete`, `fail` and `requestCancellation` of
-- src/server/agent/run-store.ts, and the recovery of src/server/agent/retention.ts.
use openvac_web.Runs.Artifacts.{cleanup_run_artifacts}
use openvac_web.Runs.Settle.{
  AgentRunTerminalStatus, terminal_status, settle_answer_quota_in_transaction, update_run,
  end_completed, end_incomplete, end_failed, end_cancelled,
}
use openvac_web.Runs.Complete.{
  CompletionStatus, completion_end, CompleteInput, completable, write_answer, finish_run, complete,
  as_completed, as_incomplete,
}
use openvac_web.Runs.Fail.{
  FailureStatus, failure_end, failure_reason, FailInput, mark_failed, mark_settled, again,
  already_failed, refuse_committed, run_cleanup, settle_failure, fail, request_cancellation,
  as_failed, as_cancelled,
}
use openvac_web.Prelude.{
  ℕ, String, ◌≡◌, refl, inl, inr, true, Option, none, some, List, arith, str_eq, Bool-cases,
  Option-cases, ◌>>=◌, modify, Ensures, Ensures-bind, Ensures-mono,
}
use openvac_web.Quota.Types.{QuotaReservationStatus, Collation, committed, released, reserved}
use openvac_web.Runs.Types.{
  AgentRunStatus, SettlementStatus, is_active, MessageRow, RunRow, RunDatabase,
}
use openvac_web.Runs.Rows.{assert_account_writable, find_turn, find_run}
use openvac_web.Runs.Active.{IsOrderly, same_turns-IsOrderly, SameRuns}
use openvac_web.Runs.Steps.{settle-SameRuns, update-IsOrderly, select-IsOrderly}

write_answer-IsOrderly :
    (input : CompleteInput) (now : ℕ) (db : RunDatabase)
    → IsOrderly db
    → IsOrderly (write_answer input now db)
unfolding write_answer
write_answer-IsOrderly input now db v = go input.status refl
  where
    go : (st : CompletionStatus) → input.status ≡ st → IsOrderly (write_answer input now db)
    go as_completed e =
        select-IsOrderly input.run.turn_id input.run.run_id db (write_answer input now db) v
          (rw e refl) refl refl
    go as_incomplete e =
        same_turns-IsOrderly db (write_answer input now db) v (rw e refl) refl (omega arith)

finish_run-IsOrderly :
    (id : ℕ) (end : AgentRunTerminalStatus) (q : Option QuotaReservationStatus) (payload : String)
    (now : ℕ) (db : RunDatabase)
    → IsOrderly db
    → IsOrderly (record db { runs = update_run id (finish_run end q payload now) db.runs })
unfolding finish_run
finish_run-IsOrderly id end q payload now db v =
    update-IsOrderly id (finish_run end q payload now) db _ (λ r. (refl, refl)) (inactive end) v
      refl refl refl
  where
    inactive :
        (e : AgentRunTerminalStatus) (r : RunRow)
        → is_active (terminal_status e) ≡ true
        → is_active r.status ≡ true
    inactive end_completed r h = absurd (cc)
    inactive end_incomplete r h = absurd (cc)
    inactive end_failed r h = absurd (cc)
    inactive end_cancelled r h = absurd (cc)

pub settle-IsOrderly :
    (c : Collation) (lease : Option ℕ) (user_id : String) (end : AgentRunTerminalStatus)
    (reason : String) (now : ℕ) (db : RunDatabase)
    → IsOrderly db
    → Ensures
        (λ _ s. IsOrderly s)
        (settle_answer_quota_in_transaction c lease user_id end reason now db)
settle-IsOrderly c lease user_id end reason now db v =
    Ensures-mono (λ _ s. SameRuns db s) (λ _ s. IsOrderly s)
      (settle_answer_quota_in_transaction c lease user_id end reason now db)
      (λ _ s same. same_turns-IsOrderly db s v same.0 same.1 same.2)
      (settle-SameRuns c lease user_id end reason now db)

complete_rest-IsOrderly :
    (c : Collation) (input : CompleteInput) (lease now : ℕ) (db : RunDatabase)
    → IsOrderly db
    → Ensures
        (λ _ s. IsOrderly s)
        ((settle_answer_quota_in_transaction c
              (some lease)
              input.user_id
              (completion_end input.status)
              "agent_run_incomplete"
              now
            >>= λ q. modify λ s. record s {
              runs =
                  update_run input.run.run_id
                    (finish_run (completion_end input.status) q input.answer now)
                    s.runs;
            })
          db)
complete_rest-IsOrderly c input lease now db v =
    Ensures-bind (λ _ s. IsOrderly s) (λ _ s. IsOrderly s)
      (settle_answer_quota_in_transaction c (some lease) input.user_id (completion_end input.status)
        "agent_run_incomplete" now)
      _ db
      (settle-IsOrderly c (some lease) input.user_id (completion_end input.status)
        "agent_run_incomplete" now db v)
      λ q s _ k.
        finish_run-IsOrderly input.run.run_id (completion_end input.status) q input.answer now s k

-- The guards write nothing.
pub account_guard :
    (user_id : String) (db : RunDatabase)
    → IsOrderly db
    → Ensures (λ _ s. IsOrderly s) (assert_account_writable user_id db)
unfolding assert_account_writable
account_guard user_id db v = ground arith

completion_guard :
    (r : Option RunRow) (db : RunDatabase)
    → IsOrderly db
    → Ensures (λ _ s. IsOrderly s) (completable r db)
unfolding completable
completion_guard none db v = tt
completion_guard (some r) db v = ground arith

pub complete-IsOrderly :
    (c : Collation) (input : CompleteInput) (now : ℕ) (db : RunDatabase)
    → IsOrderly db
    → Ensures (λ _ s. IsOrderly s) (complete c input now db)
unfolding complete
complete-IsOrderly c input now db v =
    Ensures-bind (λ _ s. IsOrderly s) (λ _ s. IsOrderly s) (assert_account_writable input.user_id) _
      db (account_guard input.user_id db v)
      λ _ s _ k.
        Ensures-bind (λ _ s. IsOrderly s) (λ _ s. IsOrderly s)
          (completable (find_run input.run.run_id s.runs)) _ s
          (completion_guard (find_run input.run.run_id s.runs) s k)
          λ lease s' _ k'.
            complete_rest-IsOrderly c input lease now (write_answer input now s')
              (write_answer-IsOrderly input now s' k')

mark_failed-IsOrderly :
    (input : FailInput) (now : ℕ) (db : RunDatabase)
    → IsOrderly db
    → IsOrderly (record db { runs = update_run input.run.run_id (mark_failed input now) db.runs })
unfolding mark_failed
mark_failed-IsOrderly input now db v =
    update-IsOrderly input.run.run_id (mark_failed input now) db _ (λ r. (refl, refl))
      (inactive input.status) v refl refl refl
  where
    inactive :
        (f : FailureStatus) (r : RunRow)
        → is_active (terminal_status (failure_end f)) ≡ true
        → is_active r.status ≡ true
    inactive as_failed r h = absurd (cc)
    inactive as_cancelled r h = absurd (cc)

mark_settled-IsOrderly :
    (id : ℕ) (q : Option QuotaReservationStatus) (ms : List MessageRow) (db : RunDatabase)
    → IsOrderly db
    → IsOrderly (record db { runs = update_run id (mark_settled q) db.runs; messages = ms })
unfolding mark_settled
mark_settled-IsOrderly id q ms db v =
    update-IsOrderly id (mark_settled q) db _ (λ r. (refl, refl)) (λ r h. h) v refl refl refl

settle_failure-IsOrderly :
    (c : Collation) (input : FailInput) (now : ℕ) (r : RunRow) (db : RunDatabase)
    → IsOrderly db
    → Ensures (λ _ s. IsOrderly s) (settle_failure c input now r db)
unfolding settle_failure cleanup_run_artifacts
settle_failure-IsOrderly c input now r db v =
    Ensures-bind (λ _ s. IsOrderly s) (λ _ s. IsOrderly s)
      (settle_answer_quota_in_transaction c r.answer_quota_lease_id r.user_id
        (failure_end input.status) (failure_reason input.status) now)
      _ db
      (settle-IsOrderly c r.answer_quota_lease_id r.user_id (failure_end input.status)
        (failure_reason input.status) now db v)
      λ q s _ k.
        Ensures-bind (λ _ s. IsOrderly s) (λ _ s. IsOrderly s) (refuse_committed q) _ s
          (committed_guard q s k)
          λ _ s' _ k'.
            mark_settled-IsOrderly input.run.run_id q _
              (cleanup_run_artifacts (run_cleanup input.run r.user_id) s')
              (same_turns-IsOrderly s' (cleanup_run_artifacts (run_cleanup input.run r.user_id) s')
                k' refl refl (omega arith))
  where
    committed_guard :
        (q : Option QuotaReservationStatus) (s : RunDatabase)
        → IsOrderly s
        → Ensures (λ _ s. IsOrderly s) (refuse_committed q s)
    committed_guard (some committed) s k = tt
    committed_guard (some reserved) s k = k
    committed_guard (some released) s k = k
    committed_guard none s k = k

failed_again :
    (r : RunRow) (db : RunDatabase)
    → IsOrderly db
    → Ensures (λ _ s. IsOrderly s) (already_failed r db)
unfolding already_failed again
failed_again r db v = go r.status r.settlement_status r.answer_quota_status
  where
    go :
        (a : AgentRunStatus) (b : SettlementStatus) (q : Option QuotaReservationStatus)
        → Ensures (λ _ s. IsOrderly s) (again a b q db)
    go a b q = ground arith

pub fail-IsOrderly :
    (c : Collation) (input : FailInput) (now : ℕ) (db : RunDatabase)
    → IsOrderly db
    → Ensures (λ _ s. IsOrderly s) (fail c input now db)
unfolding fail
fail-IsOrderly c input now db v = elim (Option-cases (find_run input.run.run_id db.runs)) [
  | inl missing ↦ rw (missing, Ensures) tt
  | inr (r, found) ↦ elim (Bool-cases (is_active r.status)) [
    | inl active ↦
        rw (found, active, Ensures)
          (settle_failure-IsOrderly c input now (mark_failed input now r) _
            (mark_failed-IsOrderly input now db v))
    | inr ended ↦ rw (found, ended, Ensures) (failed_again r db v)
  ]
]

pub request_cancellation-IsOrderly :
    (user_id : String) (run_id now : ℕ) (db : RunDatabase)
    → IsOrderly db
    → Ensures (λ _ s. IsOrderly s) (request_cancellation user_id run_id now db)
unfolding request_cancellation
request_cancellation-IsOrderly user_id run_id now db v =
    let marked =
      update-IsOrderly run_id (λ x. record x { cancel_requested_at = some now; updated_at = now })
        db
        (record db {
          runs =
              update_run run_id (λ x. record x { cancel_requested_at = some now; updated_at = now })
                db.runs;
        })
        (λ r. (refl, refl)) (λ r h. h) v refl refl refl in
    elim (Option-cases (find_run run_id db.runs)) [
      | inl missing ↦ rw (missing, Ensures) v
      | inr (r, found) ↦ elim (Option-cases (find_turn r.turn_id db.turns)) [
        | inl lost ↦ rw (found, lost, Ensures) v
        | inr (turn, joined) ↦ elim (Bool-cases (str_eq r.user_id user_id)) [
          | inr foreign ↦ rw (found, joined, foreign, Ensures) v
          | inl own ↦ elim (Bool-cases (is_active r.status)) [
            | inl active ↦ rw (found, joined, own, active, Ensures) marked
            | inr ended ↦ rw (found, joined, own, ended, Ensures) v
          ]
        ]
      ]
    ]
