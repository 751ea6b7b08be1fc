-- ===== src/Stream/WriterExamples.antt =====
-- Live and replayed answers at concrete inputs.

use openvac_web.Prelude.{
  ℕ, ◌+◌, ◌-◌, ◌≤◌, String, ◌≡◌, refl, true, false, Option, none, some, List, [], ◌∷◌, ◌++◌, arith,
  ◌==◌, if◌then◌else◌, length, every, ok,
}
use openvac_web.Quota.Types.{released}
use openvac_web.Runs.Types.{CreatedRun, StoredRunReplay, completed, initial}
use openvac_web.Json.{natural}
use openvac_web.Stream.Events.{StreamEvent, parse_chat_event_stream}
use openvac_web.Stream.Protocol.{
  V2Event, event_type, tool_started, tool_completed, tool_failed, run_accepted, stage_changed,
  tool_changed, answer_section_committed, answer_block_committed, citation_committed, run_completed,
  run_cancelled, run_failed, stage_event, block_event,
}
use openvac_web.Stream.Writer.{
  Stringify, StreamStep, OrchestratorEnd, final_event, accepted, stream_run, StoredAnswer,
  replay_events, replay_completed, replay_response, emits, beats, client_goes, threw, answer_v3,
}
use openvac_web.Stream.Written.{is_plain}
use openvac_web.Stream.Reading.{read_event, IsJson, numbered}
use openvac_web.Stream.Answers.{emitted, live_answer_read}
use openvac_web.Stream.Replays.{replayed_answer_read}

-- A JSON of three characters: the brace, a code of the type, and the sequence.
abbrev type_code : V2Event → ℕ
type_code (run_accepted _) = 30
type_code (stage_changed _ _) = 31
type_code (tool_changed tool_started _) = 32
type_code (tool_changed tool_completed _) = 33
type_code (tool_changed tool_failed _) = 34
type_code (answer_section_committed _ _) = 35
type_code (answer_block_committed _ _) = 36
type_code (citation_committed _) = 37
type_code (run_completed _) = 38
type_code run_cancelled = 39
type_code (run_failed _) = 40

abbrev type_of_code : ℕ → String
type_of_code c =
    if c == 30
    then "run.accepted"
    else if c == 31
    then "stage.changed"
    else if c == 32
    then "tool.started"
    else if c == 33
    then "tool.completed"
    else if c == 34
    then "tool.failed"
    else if c == 35
    then "answer.section.committed"
    else if c == 36
    then "answer.block.committed"
    else if c == 37
    then "citation.committed"
    else if c == 38
    then "run.completed"
    else if c == 39
    then "run.cancelled"
    else "run.failed"

type_code-type : (e : V2Event) → (type_of_code (type_code e) ≡ event_type e) × (30 ≤ type_code e)
unfolding event_type
type_code-type (run_accepted _) = (refl, omega arith)
type_code-type (stage_changed _ _) = (refl, omega arith)
type_code-type (tool_changed tool_started _) = (refl, omega arith)
type_code-type (tool_changed tool_completed _) = (refl, omega arith)
type_code-type (tool_changed tool_failed _) = (refl, omega arith)
type_code-type (answer_section_committed _ _) = (refl, omega arith)
type_code-type (answer_block_committed _ _) = (refl, omega arith)
type_code-type (citation_committed _) = (refl, omega arith)
type_code-type (run_completed _) = (refl, omega arith)
type_code-type run_cancelled = (refl, omega arith)
type_code-type (run_failed _) = (refl, omega arith)

abbrev short : Stringify
short run_id sequence e = b'{' ∷ type_code e ∷ (100 + sequence) ∷ []

abbrev parse_short : List ℕ → Option StreamEvent
parse_short (brace ∷ code ∷ n ∷ []) = some (record {
  has_run_id = true;
  sequence = some (natural (n - 100));
  event_type = some (type_of_code code);
  body = "";
})
parse_short _ = none

short_inner-is_plain : (c n : ℕ) → 30 ≤ c → every is_plain (c ∷ (100 + n) ∷ []) ≡ true
short_inner-is_plain c n h = ground (arith, h)

same_event : (n : ℕ) (e : V2Event) → parse_short (short 9 n e) ≡ some (read_event (λ _ _. "") 9 n e)
same_event n e =
    let back : 100 + n - 100 ≡ n = omega arith in
    let (type_name, _) = type_code-type e in
    λ i. some (record {
      has_run_id = true;
      sequence = some (natural (back i));
      event_type = some (type_name i);
      body = "";
    })

short-IsJson : IsJson short parse_short (λ _ _. "")
short-IsJson = record {
  inner = λ run_id n e. type_code e ∷ (100 + n) ∷ [];
  opens = λ run_id n e. refl;
  one_line = λ run_id n e. short_inner-is_plain (type_code e) n (type_code-type e).1;
  parses = λ run_id n e _. same_event n e;
}

abbrev run : CreatedRun
run = record {
  run_id = 9;
  turn_id = 8;
  conversation_id = 7;
  user_message_id = 5;
  assistant_message_id = 6;
  answer_version = 1;
  question = "leak rate?";
  action = initial;
}

abbrev steps : List StreamStep
steps = emits (stage_event "reasoning" "thinking") ∷ beats ∷ emits (block_event "text" 0) ∷ []

abbrev over : OrchestratorEnd
over =
    threw
      (record {
        code = "TIMEOUT";
        message = "late";
        retryable = true;
        answer_validation_stage = none;
      })
      false (some released)

live_answer_read_example :
    parse_chat_event_stream parse_short (stream_run short run steps over).sent
    ≡ (numbered (λ _ _. "") 9 0 (accepted run ∷ emitted steps ++ final_event run over ∷ []), ok tt)
unfolding stream_run
live_answer_read_example =
    live_answer_read short-IsJson run steps over (stream_run short run steps over).sent
      (refl, (refl, (refl, tt))) (omega arith) refl

-- A client that goes away closes the stream: nothing is sent any more.
gone_test :
    length
      (stream_run short run
        (emits (stage_event "saving" "saving") ∷ client_goes ∷ beats ∷ steps)
        over).sent
    ≡ 2
unfolding stream_run
gone_test = refl

abbrev stored : StoredRunReplay
stored = record {
  run_id = 9;
  turn_id = 8;
  conversation_id = 7;
  user_message_id = 5;
  message_id = 6;
  answer_version = 1;
  status = completed;
  answer = "answer";
}

abbrev stored_answer : StoredAnswer
stored_answer = answer_v3 ("first" ∷ "second" ∷ [])

replayed_answer_read_example :
    parse_chat_event_stream parse_short
      (replay_response short stored stored_answer ("source" ∷ []) "meta").sent
    ≡ (
      numbered
          (λ _ _. "")
          9
          0
          (replay_events stored stored_answer ("source" ∷ [])
            ++ replay_completed stored "meta" ∷ []),
      ok tt,
    )
unfolding replay_events
replayed_answer_read_example =
    replayed_answer_read short-IsJson stored stored_answer ("source" ∷ []) "meta"
      (replay_response short stored stored_answer ("source" ∷ []) "meta").sent (omega arith) refl
