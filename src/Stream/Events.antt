-- ===== src/Stream/Events.antt =====
-- The events of src/lib/sse.ts: `parseChatEventStream` on the frames of the stream. `JSON.parse` is a
-- parameter: none where it throws, or gives no object, for which the `in` of the code throws.
use openvac_web.Prelude.{
  ℕ, String, Bool, true, false, not, ◌||◌, Option, none, some, List, [], ◌∷◌, str_eq, ltb,
  if◌then◌else◌, Result, ok, err,
}
use openvac_web.Script.{codes}
use openvac_web.Json.{Number, natural}
use openvac_web.Stream.Frames.{read_chunks, after_prefix, frame_data}

-- A parsed event, an object: whether it has a `runId`; its `sequence` and its `type`, if it has them;
-- and the rest of it.
pub record StreamEvent : Type 0 where
  pub has_run_id : Bool
  pub sequence : Option Number
  pub event_type : Option String
  pub body : String

-- The sequence of an event of version 2, which has a run and a sequence: `isV2`.
abbrev pub v2_sequence : StreamEvent → Option Number
v2_sequence e = if e.has_run_id then e.sequence else none

abbrev pub is_terminal_type : String → Bool
is_terminal_type type_name =
    str_eq type_name "complete"
    || (str_eq type_name "run.completed"
        || (str_eq type_name "run.cancelled" || str_eq type_name "run.failed"))

-- The types that end the answer.
unfoldable pub is_terminal : StreamEvent → Bool
is_terminal e = elim e.event_type [ none ↦ false | some type_name ↦ is_terminal_type type_name ]

pub data ProtocolVersion : Type 0 where
  version_1 version_2 : ProtocolVersion

pub record Reader : Type 0 where
  pub protocol : Option ProtocolVersion
  pub last_sequence : ℕ
  pub complete_seen : Bool

pub data StreamError : Type 0 where
  mixed_versions repeated_completion data_after_completion : StreamError
  connection_interrupted not_json : StreamError

pub data Verdict : Type 0 where
  skips yields : Verdict

abbrev pub Judged : Type 0
Judged = Result StreamError (Verdict × Reader)

-- `Number.isSafeInteger(sequence) && sequence > lastSequence`
unfoldable pub next_sequence : ℕ → Number → Option ℕ
next_sequence last (natural n) = if ltb last n then some n else none
next_sequence last _ = none

unfoldable pub judge_completion : Reader → StreamEvent → Judged
unfolding is_terminal
judge_completion r e =
    if is_terminal e
    then if r.complete_seen
      then err repeated_completion
      else ok (yields, record r { complete_seen = true })
    else if r.complete_seen
    then err data_after_completion
    else ok (yields, r)

unfoldable pub judge_sequence : Reader → StreamEvent → Number → Judged
unfolding next_sequence judge_completion
judge_sequence r e sequence = elim (next_sequence r.last_sequence sequence) [
  | none ↦ ok (skips, r)
  | some n ↦ judge_completion (record r { last_sequence = n }) e
]

-- One event: the version is fixed by the first.
unfoldable pub judge_event : Reader → StreamEvent → Judged
unfolding judge_sequence judge_completion
judge_event r e = elim (v2_sequence e) [
  | none ↦ elim r.protocol [
    | some version_2 ↦ err mixed_versions
    | _ ↦ judge_completion (record r { protocol = some version_1 }) e
  ]
  | some sequence ↦ elim r.protocol [
    | some version_1 ↦ err mixed_versions
    | _ ↦ judge_sequence (record r { protocol = some version_2 }) e sequence
  ]
]

-- The yielded events, with the reader or the error at the end.
abbrev pub Reading : Type 0
Reading = List StreamEvent × Result StreamError Reader

abbrev pub after_event : StreamEvent → Judged → (Reader → Reading) → Reading
after_event e (ok (skips, r)) next = next r
after_event e (ok (yields, r)) next = let (events, end) = next r in (e ∷ events, end)
after_event e (err x) next = ([], err x)

unfoldable pub read_events : Reader → List StreamEvent → Reading
unfolding judge_event
read_events r [] = ([], ok r)
read_events r (e ∷ es) = after_event e (judge_event r e) λ r'. read_events r' es

-- Whether a frame has data, and other data than the end mark.
unfoldable pub has_event : List ℕ → Bool
has_event [] = false
has_event (c ∷ cs) =
    not (elim (after_prefix (codes "[DONE]") (c ∷ cs)) [ some [] ↦ true | _ ↦ false ])

-- The events of the frames, up to the first that is no JSON.
unfoldable pub frame_events :
    (List ℕ → Option StreamEvent) → List (List ℕ) → List StreamEvent × Bool
unfolding frame_data has_event
frame_events parse_json [] = ([], true)
frame_events parse_json (frame ∷ frames) =
    let rest = frame_events parse_json frames in
    if has_event (frame_data frame)
    then elim (parse_json (frame_data frame)) [ none ↦ ([], false) | some e ↦ (e ∷ rest.0, rest.1) ]
    else rest

abbrev pub start_reader : Reader
start_reader = record { protocol = none; last_sequence = 0; complete_seen = false }

-- How the stream ends, once all its frames have been read.
abbrev pub stream_end : Bool → Result StreamError Reader → Result StreamError (Unit {0})
stream_end all_json (err x) = err x
stream_end false (ok r) = err not_json
stream_end true (ok r) = if r.complete_seen then ok tt else err connection_interrupted

unfoldable pub parse_chat_event_stream :
    (List ℕ → Option StreamEvent) → List (List ℕ) → List StreamEvent × Result StreamError (Unit {0})
unfolding read_chunks frame_events read_events
parse_chat_event_stream parse_json chunks =
    let (frames, rest) = read_chunks [] chunks in
    let (events, all_json) = frame_events parse_json frames in
    let (yielded, end) = read_events start_reader events in (yielded, stream_end all_json end)
