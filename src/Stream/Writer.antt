-- ===== src/Stream/Writer.antt =====
-- How src/server/agent/http-v2.ts writes the answer stream: `streamRun`, `emitOrchestratorEvent` and
-- `replayResponse`. `JSON.stringify` of an event with its run and its sequence is an argument; the
-- contents of blocks, sections, citations and answers are texts.

use openvac_web.Stream.Protocol.{
  FailedRun, V2Event, OrchestratorEvent, emit_orchestrator_event, run_accepted,
  answer_section_committed, answer_block_committed, citation_committed, run_completed,
  run_cancelled, run_failed,
}
use openvac_web.Prelude.{
  ℕ, ◌+◌, String, Bool, true, false, Option, none, some, List, [], ◌∷◌, ◌++◌, if◌then◌else◌,
}
use openvac_web.Quota.Types.{QuotaReservationStatus, released}
use openvac_web.Runs.Types.{CreatedRun, StoredRunReplay}
use openvac_web.Script.{codes}

-- A stream: `sent` is what its target has taken; a target whose client is gone takes nothing.
pub record Writer : Type 0 where
  pub sequence : ℕ
  pub closed : Bool
  pub client_gone : Bool
  pub sent : List (List ℕ)

abbrev pub Stringify : Type 0
Stringify = ℕ → ℕ → V2Event → List ℕ

abbrev pub frame : List ℕ → List ℕ
frame text = text ++ 10 ∷ 10 ∷ []

abbrev pub data_text : Stringify → ℕ → ℕ → V2Event → List ℕ
data_text stringify run_id sequence e = codes "data: " ++ stringify run_id sequence e

abbrev pub keep_alive : List ℕ
keep_alive = codes ": keep-alive"

-- `enqueue`, and the catch of what it throws.
unfoldable pub enqueue : List ℕ → Writer → Writer
enqueue text w =
    if w.client_gone
    then record w { closed = true }
    else record w { sent = w.sent ++ frame text ∷ [] }

unfoldable pub send : Stringify → ℕ → V2Event → Writer → Writer
unfolding enqueue
send stringify run_id e w =
    if w.closed
    then w
    else enqueue (data_text stringify run_id (w.sequence + 1) e)
        (record w { sequence = w.sequence + 1 })

unfoldable pub heartbeat : Writer → Writer
unfolding enqueue
heartbeat w = if w.closed then w else enqueue keep_alive w

-- What happens while the orchestrator runs: its events, the timer, a connection that breaks, and
-- the `cancel` of the stream.
pub data StreamStep : Type 0 where
  emits : OrchestratorEvent → StreamStep
  beats client_goes client_cancels : StreamStep

unfoldable pub stream_step : Stringify → ℕ → StreamStep → Writer → Writer
unfolding send heartbeat emit_orchestrator_event
stream_step stringify run_id (emits e) w = send stringify run_id (emit_orchestrator_event e) w
stream_step stringify run_id beats w = heartbeat w
stream_step stringify run_id client_goes w = record w { client_gone = true }
stream_step stringify run_id client_cancels w = record w { closed = true }

unfoldable pub stream_steps : Stringify → ℕ → List StreamStep → Writer → Writer
unfolding stream_step
stream_steps stringify run_id [] w = w
stream_steps stringify run_id (step ∷ steps) w =
    stream_steps stringify run_id steps (stream_step stringify run_id step w)

-- What `publicErrorCode`, `publicErrorMessage`, `isRetryable` and the stage say of an error.
pub record PublicError : Type 0 where
  pub code : String
  pub message : String
  pub retryable : Bool
  pub answer_validation_stage : Option String

-- `orchestrator.run` returns an answer with its meta, or throws; then the signal is aborted or not,
-- and `store.fail` answers the status of the quota, or throws (none).
pub data OrchestratorEnd : Type 0 where
  returned : String → String → OrchestratorEnd
  threw : PublicError → Bool → Option QuotaReservationStatus → OrchestratorEnd

abbrev pub settlement_pending : FailedRun
settlement_pending = record {
  code = "RUN_SETTLEMENT_PENDING";
  message = "本次回答未完成，额度与产物清理正在自动恢复，请稍后重试。";
  retryable = true;
  suggested_action = "wait";
  charged = none;
  settlement = "pending_recovery";
  answer_validation_stage = none;
}

abbrev pub failure : PublicError → FailedRun
failure e = record {
  code = e.code;
  message = e.message;
  retryable = e.retryable;
  suggested_action = if e.retryable then "retry" else "report";
  charged = some false;
  settlement = "released";
  answer_validation_stage = e.answer_validation_stage;
}

unfoldable pub final_event : CreatedRun → OrchestratorEnd → V2Event
final_event run (returned answer meta) = run_completed (record {
  conversation_id = run.conversation_id;
  turn_id = run.turn_id;
  message_id = run.assistant_message_id;
  answer_version = run.answer_version;
  answer = answer;
  meta = meta;
})
final_event run (threw e cancelled (some released)) =
    if cancelled then run_cancelled else run_failed (failure e)
final_event run (threw e cancelled _) = run_failed settlement_pending

abbrev pub accepted : CreatedRun → V2Event
accepted run = run_accepted (record {
  turn_id = run.turn_id;
  conversation_id = run.conversation_id;
  user_message_id = run.user_message_id;
  message_id = run.assistant_message_id;
  answer_version = run.answer_version;
})

abbrev pub new_writer : Writer
new_writer = record { sequence = 0; closed = false; client_gone = false; sent = [] }

abbrev pub close : Writer → Writer
close w = record w { closed = true }

unfoldable pub stream_run : Stringify → CreatedRun → List StreamStep → OrchestratorEnd → Writer
unfolding send stream_steps final_event
stream_run stringify run steps end =
    let first = send stringify run.run_id (accepted run) new_writer in
    let last = stream_steps stringify run.run_id steps first in
    close (send stringify run.run_id (final_event run end) last)

-- The answer of a replay: the blocks of version 3, or the named sections of version 2.
pub data StoredAnswer : Type 0 where
  answer_v3 : List String → StoredAnswer
  answer_v2 : (conclusion assumptions evidence missing_inputs next_steps : String) → StoredAnswer

unfoldable pub answer_v3_blocks : ℕ → List String → List V2Event
answer_v3_blocks index [] = []
answer_v3_blocks index (block ∷ blocks) =
    answer_block_committed block index ∷ answer_v3_blocks (index + 1) blocks

unfoldable pub answer_events : StoredAnswer → List V2Event
unfolding answer_v3_blocks
answer_events (answer_v3 blocks) = answer_v3_blocks 0 blocks
answer_events (answer_v2 conclusion assumptions evidence missing_inputs next_steps) =
    answer_section_committed "conclusion" conclusion
    ∷ answer_section_committed "assumptions" assumptions
    ∷ answer_section_committed "evidence" evidence
    ∷ answer_section_committed "missingInputs" missing_inputs
    ∷ answer_section_committed "nextSteps" next_steps
    ∷ []

unfoldable pub citation_events : List String → List V2Event
citation_events [] = []
citation_events (citation ∷ citations) = citation_committed citation ∷ citation_events citations

-- The events of a replay but the last.
unfoldable pub replay_events : StoredRunReplay → StoredAnswer → List String → List V2Event
unfolding answer_events citation_events
replay_events replay answer citations =
    run_accepted (record {
      turn_id = replay.turn_id;
      conversation_id = replay.conversation_id;
      user_message_id = replay.user_message_id;
      message_id = replay.message_id;
      answer_version = replay.answer_version;
    })
      ∷ answer_events answer
    ++ citation_events citations

unfoldable pub replay_completed : StoredRunReplay → String → V2Event
replay_completed replay meta = run_completed (record {
  conversation_id = replay.conversation_id;
  turn_id = replay.turn_id;
  message_id = replay.message_id;
  answer_version = replay.answer_version;
  answer = replay.answer;
  meta = meta;
})

unfoldable pub send_all : Stringify → ℕ → List V2Event → Writer → Writer
unfolding send
send_all stringify run_id [] w = w
send_all stringify run_id (e ∷ es) w = send_all stringify run_id es (send stringify run_id e w)

unfoldable pub replay_response :
    Stringify → StoredRunReplay → StoredAnswer → List String → String → Writer
unfolding send_all send replay_events replay_completed
replay_response stringify replay answer citations meta =
    let events =
      send_all stringify replay.run_id (replay_events replay answer citations) new_writer in
    close (send stringify replay.run_id (replay_completed replay meta) events)
