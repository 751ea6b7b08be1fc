-- ===== src/Runs/Recovery.antt =====
-- src/server/agent/retention.ts: runs whose process died, and reservations that no run holds.
use openvac_web.Runs.Artifacts.{cleanup_run_artifacts}
use openvac_web.Runs.Settle.{
  AgentRunTerminalStatus, terminal_status, in_quota, settle_answer_quota_in_transaction, update_run,
  update_message, end_completed, end_incomplete, end_failed, end_cancelled,
}
use openvac_web.Prelude.{
  ℕ, ◌+◌, ◌-◌, max, String, Bool, true, false, not, ◌&&◌, Option, none, some, List, [], ◌∷◌, map,
  leb, ◌==◌, if◌then◌else◌, any, select, Result, ◌>>=◌, ◌>>◌, pure, require, modify, after, ok, err,
}
use openvac_web.Script.{Environment, Parsed, parse_int, safe_positive}
use openvac_web.Quota.Types.{
  QuotaResource, QuotaReservationStatus, same_resource, is_released, is_reserved, LedgerRow,
  Collation, answer, web_search, model_attempt,
}
use openvac_web.Quota.Repository.Transition.{release}
use openvac_web.Runs.Types.{
  AgentRunStatus, is_active, MessageRow, RunRow, RunDatabase, RunError, completed, incomplete,
  cancelled, unsettled, settled_completely, message_failed, quota_did_not_settle,
}
use openvac_web.Runs.Rows.{RunTx, find_turn, find_run, same_lease}
use mathlib.Core.Option

abbrev pub default_stale_run_ms : ℕ
default_stale_run_ms = 210000

unfoldable pub positive_environment_integer : Environment → String → ℕ → ℕ
positive_environment_integer env name fallback =
    Option.get_or (safe_positive (parse_int (Option.get_or (env name) ""))) fallback

-- The configured threshold counts from the minimum on.
unfoldable pub configured_or : ℕ → Option Parsed → ℕ
configured_or minimum none = minimum
configured_or minimum (some p) = if not p.negative && leb minimum p.size then p.size else minimum

unfoldable pub stale_run_threshold_ms : Environment → ℕ
unfolding positive_environment_integer configured_or
stale_run_threshold_ms env =
    let longest_run_timeout =
      max (positive_environment_integer env "AGENT_AUTO_TIMEOUT_MS" 60000)
        (positive_environment_integer env "AGENT_DEEP_TIMEOUT_MS" 180000) in
    let minimum = max default_stale_run_ms (longest_run_timeout + 30000) in
    configured_or minimum (parse_int (Option.get_or (env "AGENT_STALE_RUN_MS") ""))

-- What a candidate is when its transaction reads it again.
pub data Recovery : Type 0 where
  interrupted needs_settlement nothing_to_do : Recovery

unfoldable pub recovery_of : ℕ → RunRow → Recovery
recovery_of stale_before r =
    if is_active r.status
    then (if leb r.updated_at stale_before then interrupted else nothing_to_do)
    else elim r.settlement_status [
      | unsettled ↦ needs_settlement
      | settled_completely ↦ nothing_to_do
    ]

-- The terminal status that a run which is no longer active has.
unfoldable pub ended_as : AgentRunStatus → AgentRunTerminalStatus
ended_as completed = end_completed
ended_as incomplete = end_incomplete
ended_as cancelled = end_cancelled
ended_as _ = end_failed

unfoldable pub mark_recovered :
    AgentRunTerminalStatus → Option String → Option QuotaReservationStatus → ℕ → RunRow → RunRow
mark_recovered end code quota_status now r = record r {
  status = terminal_status end;
  answer_quota_status = quota_status;
  settlement_status = settled_completely;
  error_code = elim code [ none ↦ r.error_code | some text ↦ some text ];
  completed_at = some now;
  updated_at = now;
}

interrupted_message : ℕ → MessageRow → MessageRow
interrupted_message now m = record m {
  status = message_failed;
  content = "上次生成因服务进程中断而未完成，额度已归还，可重试后重新生成。";
  error_code = some "PROCESS_INTERRUPTED";
  completed_at = some now;
}

-- `agent_run_${terminalStatus}_recovery`
unfoldable pub recovery_reason : AgentRunTerminalStatus → String
recovery_reason end_completed = "agent_run_completed_recovery"
recovery_reason end_incomplete = "agent_run_incomplete_recovery"
recovery_reason end_failed = "agent_run_failed_recovery"
recovery_reason end_cancelled = "agent_run_cancelled_recovery"

-- The cleanup of a run that ends without an answer; the candidates are joined with their turns.
unfoldable pub clean_ended : AgentRunTerminalStatus → RunRow → RunDatabase → RunDatabase
unfolding cleanup_run_artifacts find_turn
clean_ended end_completed r db = db
clean_ended end_incomplete r db = db
clean_ended _ r db = elim (find_turn r.turn_id db.turns) [
  | none ↦ db
  | some turn ↦
      cleanup_run_artifacts
        (record {
          run_id = r.id;
          user_id = r.user_id;
          conversation_id = turn.conversation_id;
          turn_id = r.turn_id;
          assistant_message_id = r.assistant_message_id;
        })
        db
]

unfoldable pub recover_interrupted : Collation → RunRow → ℕ → RunTx Bool
unfolding settle_answer_quota_in_transaction update_run update_message mark_recovered clean_ended
    interrupted_message
recover_interrupted c r now = do
  quota_status ←
      settle_answer_quota_in_transaction c r.answer_quota_lease_id r.user_id end_failed
        "agent_run_process_interrupted" now
  modify (clean_ended end_failed r)
  modify λ db. record db {
    runs =
        update_run r.id (mark_recovered end_failed (some "PROCESS_INTERRUPTED") quota_status now)
          db.runs;
    messages = update_message r.assistant_message_id (interrupted_message now) db.messages;
  }
  pure true

unfoldable pub recover_settlement : Collation → RunRow → ℕ → RunTx Bool
unfolding settle_answer_quota_in_transaction update_run mark_recovered ended_as recovery_reason
    clean_ended
recover_settlement c r now = do
  quota_status ←
      settle_answer_quota_in_transaction c r.answer_quota_lease_id r.user_id (ended_as r.status)
        (recovery_reason (ended_as r.status)) now
  modify (clean_ended (ended_as r.status) r)
  modify λ db. record db {
    runs = update_run r.id (mark_recovered (ended_as r.status) none quota_status now) db.runs;
  }
  pure true

unfoldable pub recover_run : Collation → RunRow → ℕ → Recovery → RunTx Bool
unfolding recover_interrupted recover_settlement
recover_run c r now interrupted = recover_interrupted c r now
recover_run c r now needs_settlement = recover_settlement c r now
recover_run c r now nothing_to_do = pure false

-- The transaction of one candidate.
unfoldable pub recover_candidate : Collation → ℕ → ℕ → ℕ → RunTx Bool
unfolding find_run recovery_of recover_run
recover_candidate c stale_before now run_id db = elim (find_run run_id db.runs) [
  | none ↦ ok (false, db)
  | some r ↦ recover_run c r now (recovery_of stale_before r) db
]

pub record RecoveryCount : Type 0 where
  pub recovered : ℕ
  pub left_pending : ℕ

-- A transaction that throws leaves its run to the next pass, and the others go on.
count_recovery : RecoveryCount → Result RunError (Bool × RunDatabase) → RecoveryCount
count_recovery n (ok (true, db)) = record n { recovered = n.recovered + 1 }
count_recovery n (ok (false, db)) = n
count_recovery n (err e) = record n { left_pending = n.left_pending + 1 }

unfoldable pub recover_candidates :
    Collation → ℕ → ℕ → List ℕ → RecoveryCount × RunDatabase → RecoveryCount × RunDatabase
unfolding recover_candidate count_recovery
recover_candidates c stale_before now [] s = s
recover_candidates c stale_before now (id ∷ ids) (n, db) =
    let r = recover_candidate c stale_before now id db in
    recover_candidates c stale_before now ids (count_recovery n r, after db r)

-- The candidates: stale active runs and unsettled ended ones.
is_candidate : ℕ → RunRow → Bool
unfolding recovery_of
is_candidate stale_before r = elim (recovery_of stale_before r) [ nothing_to_do ↦ false | _ ↦ true ]

-- An open reservation that is old enough and that no run holds, or that is a model attempt.
unfoldable pub is_orphan : List RunRow → ℕ → LedgerRow → Bool
unfolding same_lease
is_orphan runs stale_before row =
    is_reserved row.status
    && (leb row.reserved_at stale_before && elim row.resource [
      | answer ↦
          not (any (λ (r : RunRow). same_lease r.answer_quota_lease_id (some row.lease_id)) runs)
      | model_attempt ↦ true
      | web_search ↦ false
    ])

orphan_reason : QuotaResource → String
orphan_reason answer = "agent_run_never_persisted"
orphan_reason _ = "model_attempt_never_committed"

-- The transaction that releases one orphaned lease.
unfoldable pub release_orphan : Collation → LedgerRow → ℕ → RunTx Bool
unfolding in_quota orphan_reason
release_orphan c row now = do
  freed ← in_quota (
      release c
        (record {
          lease_id = row.lease_id;
          actor_user_id = some row.actor_user_id;
          reason = some (orphan_reason row.resource);
        })
        now)
  require (same_resource freed.resource row.resource && is_released freed.status)
      quota_did_not_settle
  pure true

unfoldable pub release_orphans :
    Collation → ℕ → List LedgerRow → RecoveryCount × RunDatabase → RecoveryCount × RunDatabase
unfolding release_orphan count_recovery
release_orphans c now [] s = s
release_orphans c now (row ∷ rows) (n, db) =
    let r = release_orphan c row now db in
    release_orphans c now rows (count_recovery n r, after db r)

-- One row for each lease: `groupBy(leaseId, actorUserId, resource)`.
one_for_each_lease : List LedgerRow → List LedgerRow
one_for_each_lease [] = []
one_for_each_lease (x ∷ xs) =
    x ∷ select (λ (y : LedgerRow). not (y.lease_id == x.lease_id)) (one_for_each_lease xs)

-- `recoverStaleAgentRuns` of all users, below its batch limit of 500.
unfoldable pub recover_stale_agent_runs :
    Collation → Environment → ℕ → RunDatabase → RecoveryCount × RunDatabase
unfolding stale_run_threshold_ms is_candidate recover_candidates is_orphan one_for_each_lease
    release_orphans
recover_stale_agent_runs c env now db =
    let stale_before = now - stale_run_threshold_ms env in
    let candidates = map (λ (r : RunRow). r.id) (select (is_candidate stale_before) db.runs) in
    let (n, db₁) =
      recover_candidates c stale_before now candidates
        (record { recovered = 0; left_pending = 0 }, db) in
    let orphans = one_for_each_lease (select (is_orphan db₁.runs stale_before) db₁.quota.ledger) in
    release_orphans c now orphans (n, db₁)
