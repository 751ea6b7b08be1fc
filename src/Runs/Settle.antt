-- ===== src/Runs/Settle.antt =====
-- src/server/agent/run-settlement.ts: the answer's quota at the end of a run, and the updates of one
-- row that the endings share.
use openvac_web.Prelude.{
  ℕ, String, Bool, ◌&&◌, Option, none, some, List, [], ◌∷◌, ◌==◌, if◌then◌else◌, Tx, ◌>>=◌, ◌>>◌,
  pure, require, ok, err,
}
use openvac_web.Quota.Types.{
  QuotaReservationStatus, Target, target_status, same_resource, is_committed, is_released,
  QuotaReservation, Database, QuotaError, Collation, answer, to_committed, to_released,
}
use openvac_web.Quota.Repository.Rows.{RepositoryTransitionInput}
use openvac_web.Quota.Repository.Transition.{transition_quota_reservation}
use openvac_web.Runs.Types.{
  AgentRunStatus, TurnRow, MessageRow, RunRow, completed, incomplete, failed, cancelled,
  quota_did_not_settle, quota_failed,
}
use openvac_web.Runs.Rows.{RunTx}

pub data AgentRunTerminalStatus : Type 0 where
  end_completed end_incomplete end_failed end_cancelled : AgentRunTerminalStatus

abbrev pub terminal_status : AgentRunTerminalStatus → AgentRunStatus
terminal_status end_completed = completed
terminal_status end_incomplete = incomplete
terminal_status end_failed = failed
terminal_status end_cancelled = cancelled

-- A quota transition inside the transaction of the run.
unfoldable pub in_quota : {A : Type 0} → Tx Database QuotaError A → RunTx A
in_quota m db = elim (m db.quota) [
  | ok (a, q) ↦ ok (a, record db { quota = q })
  | err e ↦ err (quota_failed e)
]

-- Which way the answer's quota goes.
unfoldable pub expected : AgentRunTerminalStatus → Target
expected end_completed = to_committed
expected _ = to_released

-- `quota.resource !== "answer" || quota.status !== expected`
unfoldable pub settled_as : Target → QuotaReservation → Bool
settled_as to_committed quota = same_resource quota.resource answer && is_committed quota.status
settled_as to_released quota = same_resource quota.resource answer && is_released quota.status

unfoldable pub settle_input : ℕ → String → Target → String → RepositoryTransitionInput
settle_input lease_id user_id to_committed reason = record {
  lease_id = lease_id;
  actor_user_id = some user_id;
  reason = none;
}
settle_input lease_id user_id to_released reason = record {
  lease_id = lease_id;
  actor_user_id = some user_id;
  reason = some reason;
}

unfoldable pub settle_lease :
    Collation → ℕ → String → Target → String → ℕ → RunTx (Option QuotaReservationStatus)
unfolding in_quota settle_input settled_as
settle_lease c lease_id user_id target reason now = do
  quota ←
      in_quota
        (transition_quota_reservation c (settle_input lease_id user_id target reason) target now)
  require (settled_as target quota) quota_did_not_settle
  pure (some (target_status target))

unfoldable pub settle_answer_quota_in_transaction :
    Collation
    → Option ℕ
    → String
    → AgentRunTerminalStatus
    → String
    → ℕ
    → RunTx (Option QuotaReservationStatus)
unfolding settle_lease expected
settle_answer_quota_in_transaction c none user_id status reason now = pure none
settle_answer_quota_in_transaction c (some lease_id) user_id status reason now =
    settle_lease c lease_id user_id (expected status) reason now

unfoldable pub update_run : ℕ → (RunRow → RunRow) → List RunRow → List RunRow
update_run id f [] = []
update_run id f (r ∷ rs) = if r.id == id then f r ∷ rs else r ∷ update_run id f rs

unfoldable pub update_message : ℕ → (MessageRow → MessageRow) → List MessageRow → List MessageRow
update_message id f [] = []
update_message id f (m ∷ ms) = if m.id == id then f m ∷ ms else m ∷ update_message id f ms

unfoldable pub select_run : ℕ → ℕ → List TurnRow → List TurnRow
select_run turn_id run_id [] = []
select_run turn_id run_id (t ∷ ts) =
    if t.id == turn_id
    then record t { selected_run_id = some run_id } ∷ ts
    else t ∷ select_run turn_id run_id ts
