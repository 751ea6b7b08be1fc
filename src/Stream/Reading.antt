-- ===== src/Stream/Reading.antt =====
-- What src/lib/sse.ts reads of the texts that src/server/agent/http-v2.ts writes.
use openvac_web.Stream.Protocol.{
  V2Event, event_type, tool_started, tool_completed, tool_failed, run_accepted, stage_changed,
  tool_changed, answer_section_committed, answer_block_committed, citation_committed, run_completed,
  run_cancelled, run_failed,
}
use openvac_web.Prelude.{
  ℕ, ◌+◌, ◌≤◌, String, ◌≡◌, refl, sym, ap, ◌∙◌, Bool, true, false, not, ◌&&◌, Option, none, some,
  List, [], ◌∷◌, ◌++◌, arith, length, every, All, ok,
}
use openvac_web.Json.{natural}
use openvac_web.Script.{codes, max_safe_integer}
use openvac_web.Stream.Frames.{read_chunks, after_prefix, frame_data}
use openvac_web.Stream.Chunks.{joined}
use openvac_web.Stream.Events.{
  StreamEvent, is_terminal, Reader, next_sequence, judge_completion, judge_sequence, judge_event,
  read_events, has_event, frame_events, start_reader, parse_chat_event_stream, version_1, version_2,
  yields,
}
use openvac_web.Stream.Writer.{Stringify, data_text, keep_alive}
use openvac_web.Stream.Written.{
  is_plain, frames_of, read_chunks-frames_of, frame_data-object, frame_data-keep_alive,
}

-- The events that end a run.
abbrev pub is_end : V2Event → Bool
is_end (run_completed _) = true
is_end run_cancelled = true
is_end (run_failed _) = true
is_end _ = false

-- What JSON gives for the other fields of an event, and the text of its run.
abbrev pub Body : Type 0
Body = ℕ → V2Event → String

abbrev pub read_event : Body → ℕ → ℕ → V2Event → StreamEvent
read_event body run_id sequence e = record {
  has_run_id = true;
  sequence = some (natural sequence);
  event_type = some (event_type e);
  body = body run_id e;
}

-- The reader takes exactly these for the end of an answer.
is_terminal-read_event :
    (body : Body) (run_id n : ℕ) (e : V2Event) → is_terminal (read_event body run_id n e) ≡ is_end e
unfolding is_terminal event_type
is_terminal-read_event body run_id n (run_accepted _) = refl
is_terminal-read_event body run_id n (stage_changed _ _) = refl
is_terminal-read_event body run_id n (tool_changed tool_started _) = refl
is_terminal-read_event body run_id n (tool_changed tool_completed _) = refl
is_terminal-read_event body run_id n (tool_changed tool_failed _) = refl
is_terminal-read_event body run_id n (answer_section_committed _ _) = refl
is_terminal-read_event body run_id n (answer_block_committed _ _) = refl
is_terminal-read_event body run_id n (citation_committed _) = refl
is_terminal-read_event body run_id n (run_completed _) = refl
is_terminal-read_event body run_id n run_cancelled = refl
is_terminal-read_event body run_id n (run_failed _) = refl

-- `JSON.stringify` of an object is one line in braces, and `JSON.parse` gives the object back.
pub record IsJson (stringify : Stringify) (parse_json : List ℕ → Option StreamEvent) (body : Body)
    : Type 0 where
  pub inner : ℕ → ℕ → V2Event → List ℕ
  pub opens :
      (run_id sequence : ℕ) (e : V2Event)
      → stringify run_id sequence e ≡ b'{' ∷ inner run_id sequence e
  pub one_line :
      (run_id sequence : ℕ) (e : V2Event) → every is_plain (inner run_id sequence e) ≡ true
  pub parses :
      (run_id sequence : ℕ) (e : V2Event)
      → sequence ≤ max_safe_integer
      → parse_json (stringify run_id sequence e) ≡ some (read_event body run_id sequence e)

-- What is written: an event, or a keep-alive (none).
abbrev pub Item : Type 0
Item = Option V2Event

abbrev pub events_of : List Item → List V2Event
events_of [] = []
events_of (none ∷ items) = events_of items
events_of (some e ∷ items) = e ∷ events_of items

-- The texts of the items that follow the event of the given number.
abbrev pub texts_of : Stringify → ℕ → ℕ → List Item → List (List ℕ)
texts_of stringify run_id n [] = []
texts_of stringify run_id n (none ∷ items) = keep_alive ∷ texts_of stringify run_id n items
texts_of stringify run_id n (some e ∷ items) =
    data_text stringify run_id (n + 1) e ∷ texts_of stringify run_id (n + 1) items

-- The events as they are read, numbered after the given number.
abbrev pub numbered : Body → ℕ → ℕ → List V2Event → List StreamEvent
numbered body run_id n [] = []
numbered body run_id n (e ∷ es) = read_event body run_id (n + 1) e ∷ numbered body run_id (n + 1) es

abbrev read_mark : ℕ → V2Event → Reader
read_mark n e = record { protocol = some version_2; last_sequence = n; complete_seen = is_end e }

-- The reader is not bound to version 1, and the answer has not ended.
abbrev is_reading : Reader → Bool
is_reading r = not r.complete_seen && elim r.protocol [ some version_1 ↦ false | _ ↦ true ]

judge_event-read_event :
    (body : Body) (run_id n : ℕ) (e : V2Event) (r : Reader)
    → is_reading r ≡ true
    → r.last_sequence ≤ n
    → judge_event r (read_event body run_id (n + 1) e) ≡ ok (yields, read_mark (n + 1) e)
unfolding judge_event judge_sequence judge_completion next_sequence
judge_event-read_event body run_id n e r reading later =
    ground (arith, reading, is_terminal-read_event body run_id (n + 1) e)

-- Events that end with the end of the answer are all let through.
read_events-numbered :
    (body : Body) (run_id n : ℕ) (es : List V2Event) (last : V2Event) (r : Reader)
    → is_reading r ≡ true
    → r.last_sequence ≤ n
    → All (λ e. is_end e ≡ false) es
    → is_end last ≡ true
    → (r' : Reader) × (read_events r (numbered body run_id n (es ++ last ∷ []))
        ≡ (numbered body run_id n (es ++ last ∷ []), ok r'))
      × (r'.complete_seen ≡ true)
unfolding read_events
read_events-numbered body run_id n [] last r reading later k end = (
  read_mark (n + 1) last,
  rw (judge_event-read_event body run_id n last r reading later) refl,
  end,
)
read_events-numbered body run_id n (e ∷ es) last r reading later k end =
    let (r', read, complete) =
      read_events-numbered body run_id (n + 1) es last (read_mark (n + 1) e) (rw k.0 refl)
        (omega arith) k.1 end in
    (r', rw (judge_event-read_event body run_id n e r reading later, read) refl, complete)

module _ (parse_json : List ℕ → Option StreamEvent) where
  frame_events-event :
      (text : List ℕ) (texts : List (List ℕ)) {data_of : List ℕ} {e : StreamEvent}
      {es : List StreamEvent}
      → frame_data text ≡ data_of
      → has_event data_of ≡ true
      → parse_json data_of ≡ some e
      → frame_events parse_json texts ≡ (es, true)
      → frame_events parse_json (text ∷ texts) ≡ (e ∷ es, true)
  unfolding frame_events
  frame_events-event text texts same has parsed rest = rw (same, has, parsed, rest) refl

  frame_events-none :
      (text : List ℕ) (texts : List (List ℕ))
      → frame_data text ≡ []
      → frame_events parse_json (text ∷ texts) ≡ frame_events parse_json texts
  unfolding frame_events has_event
  frame_events-none text texts same = rw same refl

  -- Reading once the frames and their events are known.
  parse-frames :
      (chunks frames : List (List ℕ)) (es : List StreamEvent) {r : Reader}
      → read_chunks [] chunks ≡ (frames, [])
      → frame_events parse_json frames ≡ (es, true)
      → read_events start_reader es ≡ (es, ok r)
      → r.complete_seen ≡ true
      → parse_chat_event_stream parse_json chunks ≡ (es, ok tt)
  unfolding parse_chat_event_stream
  parse-frames chunks frames es cut found read complete = rw (cut, found, read, complete) refl

object-has_event : (json : List ℕ) → has_event (b'{' ∷ json) ≡ true
unfolding has_event after_prefix
object-has_event json = refl

module _ {stringify : Stringify} {parse_json : List ℕ → Option StreamEvent} {body : Body}
    (json : IsJson stringify parse_json body) (run_id : ℕ) where
  data_text-plain : (n : ℕ) (e : V2Event) → every is_plain (data_text stringify run_id n e) ≡ true
  data_text-plain n e = rw (json.opens run_id n e) (json.one_line run_id n e)

  texts_of-plain :
      (n : ℕ) (items : List Item)
      → All (λ text. every is_plain text ≡ true) (texts_of stringify run_id n items)
  texts_of-plain n [] = tt
  texts_of-plain n (none ∷ items) = (refl, texts_of-plain n items)
  texts_of-plain n (some e ∷ items) = (data_text-plain (n + 1) e, texts_of-plain (n + 1) items)

  frame_events-texts_of :
      (n : ℕ) (items : List Item)
      → n + length items ≤ max_safe_integer
      → frame_events parse_json (texts_of stringify run_id n items)
        ≡ (numbered body run_id n (events_of items), true)
  unfolding frame_events
  frame_events-texts_of n [] k = refl
  frame_events-texts_of n (none ∷ items) k =
      frame_events-none parse_json keep_alive (texts_of stringify run_id n items)
        frame_data-keep_alive
      ∙ frame_events-texts_of n items (omega (arith, k))
  frame_events-texts_of n (some e ∷ items) k =
      let opened = json.opens run_id (n + 1) e in
      frame_events-event parse_json (data_text stringify run_id (n + 1) e)
        (texts_of stringify run_id (n + 1) items)
        (ap (λ t. frame_data (codes "data: " ++ t)) opened
          ∙ frame_data-object (json.inner run_id (n + 1) e) (json.one_line run_id (n + 1) e))
        (object-has_event (json.inner run_id (n + 1) e))
        (ap parse_json (sym opened) ∙ json.parses run_id (n + 1) e (omega (arith, k)))
        (frame_events-texts_of (n + 1) items (omega (arith, k)))

  -- What is read of the written items, if they end with the end of the answer.
  pub read_items :
      (items : List Item) (es : List V2Event) (last : V2Event) (chunks : List (List ℕ))
      → events_of items ≡ es ++ last ∷ []
      → All (λ e. is_end e ≡ false) es
      → is_end last ≡ true
      → length items ≤ max_safe_integer
      → joined chunks ≡ joined (frames_of (texts_of stringify run_id 0 items))
      → parse_chat_event_stream parse_json chunks
        ≡ (numbered body run_id 0 (es ++ last ∷ []), ok tt)
  read_items items es last chunks same k end few written =
      let (r, read, complete) =
        read_events-numbered body run_id 0 es last start_reader refl (omega arith) k end in
      parse-frames parse_json chunks (texts_of stringify run_id 0 items)
        (numbered body run_id 0 (es ++ last ∷ []))
        (read_chunks-frames_of (texts_of stringify run_id 0 items) chunks (texts_of-plain 0 items)
          written)
        (frame_events-texts_of 0 items (omega (arith, few))
          ∙ ap (λ l. (numbered body run_id 0 l, true)) same)
        read complete
