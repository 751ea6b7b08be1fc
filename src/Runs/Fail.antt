-- ===== src/Runs/Fail.antt =====
-- src/server/agent/run-store.ts: `fail` and `requestCancellation`.
use openvac_web.Runs.Artifacts.{CleanupInput, cleanup_run_artifacts}
use openvac_web.Runs.Settle.{
  AgentRunTerminalStatus, terminal_status, settle_answer_quota_in_transaction, update_run,
  update_message, end_failed, end_cancelled,
}
use openvac_web.Prelude.{
  ℕ, String, Option, none, some, str_eq, if◌then◌else◌, ◌>>=◌, ◌>>◌, pure, modify, ok, err,
}
use openvac_web.Quota.Types.{QuotaReservationStatus, Collation, committed, released}
use openvac_web.Runs.Types.{
  AgentRunStatus, SettlementStatus, is_active, MessageRow, RunRow, CreatedRun, failed, cancelled,
  settled_completely, message_failed, message_cancelled, run_not_failable,
  answer_quota_release_failed,
}
use openvac_web.Runs.Rows.{RunTx, find_turn, find_run}

-- The status that `fail` gives.
pub data FailureStatus : Type 0 where
  as_failed as_cancelled : FailureStatus

abbrev pub failure_end : FailureStatus → AgentRunTerminalStatus
failure_end as_failed = end_failed
failure_end as_cancelled = end_cancelled

unfoldable pub failure_reason : FailureStatus → String
failure_reason as_failed = "agent_run_failed"
failure_reason as_cancelled = "agent_run_cancelled"

unfoldable pub failed_message : FailureStatus → String → ℕ → MessageRow → MessageRow
failed_message as_failed code now m = record m {
  status = message_failed;
  content = "本次回答未完成，可重试后重新生成。";
  error_code = some code;
  completed_at = some now;
}
failed_message as_cancelled code now m = record m {
  status = message_cancelled;
  content = "本次回答已取消，未扣除成功回答额度。";
  error_code = some code;
  completed_at = some now;
}

pub record FailInput : Type 0 where
  pub run : CreatedRun
  pub status : FailureStatus
  pub code : String

unfoldable pub mark_failed : FailInput → ℕ → RunRow → RunRow
mark_failed input now r = record r {
  status = terminal_status (failure_end input.status);
  error_code = some input.code;
  completed_at = some now;
  updated_at = now;
}

unfoldable pub mark_settled : Option QuotaReservationStatus → RunRow → RunRow
mark_settled quota_status r = record r {
  answer_quota_status = quota_status;
  settlement_status = settled_completely;
}

unfoldable pub again :
    AgentRunStatus
    → SettlementStatus
    → Option QuotaReservationStatus
    → RunTx (Option QuotaReservationStatus)
again failed settled_completely (some released) db = ok (some released, db)
again cancelled settled_completely (some released) db = ok (some released, db)
again failed settled_completely none db = ok (none, db)
again cancelled settled_completely none db = ok (none, db)
again _ _ _ db = err run_not_failable

-- A run that is no longer active: what an earlier failure settled is answered again.
unfoldable pub already_failed : RunRow → RunTx (Option QuotaReservationStatus)
unfolding again
already_failed r db = again r.status r.settlement_status r.answer_quota_status db

unfoldable pub refuse_committed : Option QuotaReservationStatus → RunTx (Unit {0})
refuse_committed (some committed) db = err answer_quota_release_failed
refuse_committed _ db = ok (tt, db)

unfoldable pub run_cleanup : CreatedRun → String → CleanupInput
run_cleanup run user_id = record {
  run_id = run.run_id;
  user_id = user_id;
  conversation_id = run.conversation_id;
  turn_id = run.turn_id;
  assistant_message_id = run.assistant_message_id;
}

-- The rest of `fail`, for the row that its first update has marked.
unfoldable pub settle_failure :
    Collation → FailInput → ℕ → RunRow → RunTx (Option QuotaReservationStatus)
unfolding settle_answer_quota_in_transaction refuse_committed mark_settled cleanup_run_artifacts
    run_cleanup update_run update_message failed_message failure_reason
settle_failure c input now r = do
  quota_status ←
      settle_answer_quota_in_transaction c r.answer_quota_lease_id r.user_id
        (failure_end input.status) (failure_reason input.status) now
  refuse_committed quota_status
  modify (cleanup_run_artifacts (run_cleanup input.run r.user_id))
  modify λ db. record db {
    runs = update_run input.run.run_id (mark_settled quota_status) db.runs;
    messages =
        update_message input.run.assistant_message_id (failed_message input.status input.code now)
          db.messages;
  }
  pure quota_status

unfoldable pub fail : Collation → FailInput → ℕ → RunTx (Option QuotaReservationStatus)
unfolding find_run mark_failed update_run already_failed settle_failure
fail c input now db = elim (find_run input.run.run_id db.runs) [
  | none ↦ err run_not_failable
  | some r ↦
      if is_active r.status
      then settle_failure c input now (mark_failed input now r)
          (record db { runs = update_run input.run.run_id (mark_failed input now) db.runs })
      else already_failed r db
]

pub data CancelResult : Type 0 where
  accepted already_finished not_found : CancelResult

unfoldable pub request_cancellation : String → ℕ → ℕ → RunTx CancelResult
unfolding find_run find_turn update_run
request_cancellation user_id run_id now db = elim (find_run run_id db.runs) [
  | none ↦ ok (not_found, db)
  | some r ↦ elim (find_turn r.turn_id db.turns) [
    | none ↦ ok (not_found, db)
    | some turn ↦
        if str_eq r.user_id user_id
        then if is_active r.status
          then ok (
            accepted,
            record db {
              runs =
                  update_run run_id
                    (λ x. record x { cancel_requested_at = some now; updated_at = now }) db.runs;
            },
          )
          else ok (already_finished, db)
        else ok (not_found, db)
  ]
]
