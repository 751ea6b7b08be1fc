-- ===== src/Stream/Protocol.antt =====
-- The events of the answer stream (src/types/chat.ts) that src/server/agent/http-v2.ts writes, and those
-- of its orchestrator (src/server/agent/orchestrator.ts).
use openvac_web.Prelude.{ℕ, String, Bool, Option}

pub record AcceptedRun : Type 0 where
  pub turn_id : ℕ
  pub conversation_id : ℕ
  pub user_message_id : ℕ
  pub message_id : ℕ
  pub answer_version : ℕ

pub record CompletedRun : Type 0 where
  pub conversation_id : ℕ
  pub turn_id : ℕ
  pub message_id : ℕ
  pub answer_version : ℕ
  pub answer : String
  pub meta : String

-- `charged` none is null.
pub record FailedRun : Type 0 where
  pub code : String
  pub message : String
  pub retryable : Bool
  pub suggested_action : String
  pub charged : Option Bool
  pub settlement : String
  pub answer_validation_stage : Option String

pub data ToolStatus : Type 0 where
  tool_started tool_completed tool_failed : ToolStatus

pub data V2Event : Type 0 where
  run_accepted : AcceptedRun → V2Event
  stage_changed : String → String → V2Event
  tool_changed : ToolStatus → String → V2Event
  answer_section_committed : String → String → V2Event
  answer_block_committed : String → ℕ → V2Event
  citation_committed : String → V2Event
  run_completed : CompletedRun → V2Event
  run_cancelled : V2Event
  run_failed : FailedRun → V2Event

abbrev pub tool_type : ToolStatus → String
tool_type tool_started = "tool.started"
tool_type tool_completed = "tool.completed"
tool_type tool_failed = "tool.failed"

-- The `type` that an event is written with.
unfoldable pub event_type : V2Event → String
event_type (run_accepted _) = "run.accepted"
event_type (stage_changed _ _) = "stage.changed"
event_type (tool_changed status _) = tool_type status
event_type (answer_section_committed _ _) = "answer.section.committed"
event_type (answer_block_committed _ _) = "answer.block.committed"
event_type (citation_committed _) = "citation.committed"
event_type (run_completed _) = "run.completed"
event_type run_cancelled = "run.cancelled"
event_type (run_failed _) = "run.failed"

pub data OrchestratorEvent : Type 0 where
  stage_event : String → String → OrchestratorEvent
  tool_event : ToolStatus → String → OrchestratorEvent
  block_event : String → ℕ → OrchestratorEvent
  citation_event : String → OrchestratorEvent

unfoldable pub emit_orchestrator_event : OrchestratorEvent → V2Event
emit_orchestrator_event (stage_event stage label) = stage_changed stage label
emit_orchestrator_event (tool_event status label) = tool_changed status label
emit_orchestrator_event (block_event block index) = answer_block_committed block index
emit_orchestrator_event (citation_event citation) = citation_committed citation
