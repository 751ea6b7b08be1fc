-- ===== src/Runs/Types.antt =====
-- The rows of src/server/db/schema/agent.ts and chat.ts that src/server/agent/run-store.ts reads
-- and writes, and the types of its answers.
use openvac_web.Prelude.{ℕ, String, Bool, true, false, Option, List}
use openvac_web.Runs.Storage.{Storage}
use openvac_web.Quota.Types.{QuotaReservationStatus, Database, QuotaError}

pub data AgentRunStatus : Type 0 where
  pending running completed incomplete failed cancelled : AgentRunStatus

pub data AgentAction : Type 0 where
  initial retry regenerate continue : AgentAction

pub data SettlementStatus : Type 0 where
  unsettled settled_completely : SettlementStatus

pub data RequestedAgentMode : Type 0 where
  auto_mode deep_requested : RequestedAgentMode

pub data ResolvedAgentMode : Type 0 where
  fast deep : ResolvedAgentMode

pub data WebMode : Type 0 where
  web_auto web_always : WebMode

pub data RiskLevel : Type 0 where
  low medium high : RiskLevel

pub data MessageRole : Type 0 where
  from_user from_assistant : MessageRole

pub data MessageStatus : Type 0 where
  message_streaming message_completed message_incomplete message_failed message_cancelled :
      MessageStatus

-- `["pending", "running"].includes(status)`
abbrev pub is_active : AgentRunStatus → Bool
is_active pending = true
is_active running = true
is_active _ = false

-- A row of `conversation`.
pub record ConversationRow : Type 0 where
  pub id : ℕ
  pub user_id : String
  pub deleted_at : Option ℕ
  pub last_message_at : ℕ

-- A row of `conversation_turn`.
pub record TurnRow : Type 0 where
  pub id : ℕ
  pub conversation_id : ℕ
  pub user_message_id : ℕ
  pub ordinal : ℕ
  pub selected_run_id : Option ℕ

-- A row of `message`.
pub record MessageRow : Type 0 where
  pub id : ℕ
  pub conversation_id : ℕ
  pub user_id : String
  pub sequence : ℕ
  pub role : MessageRole
  pub status : MessageStatus
  pub content : String
  pub turn_id : ℕ
  pub error_code : Option String
  pub completed_at : Option ℕ

-- The settings of a run, as its request fixed them.
pub record RunOptions : Type 0 where
  pub requested_mode : RequestedAgentMode
  pub resolved_mode : ResolvedAgentMode
  pub web_mode : WebMode
  pub risk_level : RiskLevel
  pub model : String

-- A row of `agent_run`. The stored answer is its text.
pub record RunRow : Type 0 where
  pub id : ℕ
  pub turn_id : ℕ
  pub user_id : String
  pub assistant_message_id : ℕ
  pub client_request_id : String
  pub version : ℕ
  pub action : AgentAction
  pub options : RunOptions
  pub answer_quota_lease_id : Option ℕ
  pub answer_quota_status : Option QuotaReservationStatus
  pub status : AgentRunStatus
  pub settlement_status : SettlementStatus
  pub cancel_requested_at : Option ℕ
  pub error_code : Option String
  pub answer_payload : Option String
  pub completed_at : Option ℕ
  pub updated_at : ℕ

-- One source that an answer cites, in its place.
pub record CitationRow : Type 0 where
  pub message_id : ℕ
  pub source_id : String
  pub ordinal : ℕ

-- Newest rows first; `next_id` is above every identifier in use outside the quota tables.
pub record RunDatabase : Type 0 where
  pub conversations : List ConversationRow
  pub turns : List TurnRow
  pub messages : List MessageRow
  pub runs : List RunRow
  pub citations : List CitationRow
  pub quota : Database
  pub storage : Storage
  pub next_id : ℕ

pub record CreatedRun : Type 0 where
  pub run_id : ℕ
  pub turn_id : ℕ
  pub conversation_id : ℕ
  pub user_message_id : ℕ
  pub assistant_message_id : ℕ
  pub answer_version : ℕ
  pub question : String
  pub action : AgentAction

pub record StoredRunReplay : Type 0 where
  pub run_id : ℕ
  pub turn_id : ℕ
  pub conversation_id : ℕ
  pub user_message_id : ℕ
  pub message_id : ℕ
  pub answer_version : ℕ
  pub status : AgentRunStatus
  pub answer : String

pub data CreateRunResult : Type 0 where
  created : CreatedRun → CreateRunResult
  busy : ℕ → CreateRunResult
  replay : StoredRunReplay → CreateRunResult
  request_used : CreateRunResult

-- What the store throws, with the codes of `RunStoreError`, and what its transactions throw.
pub data RunError : Type 0 where
  account_deletion_in_progress conversation_not_found turn_not_found action_not_allowed : RunError
  run_not_completable answer_quota_lease_missing run_not_failable : RunError
  answer_quota_release_failed quota_did_not_settle duplicate_run : RunError
  quota_failed : QuotaError → RunError
