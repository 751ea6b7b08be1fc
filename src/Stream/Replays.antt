-- ===== src/Stream/Replays.antt =====
-- A replayed answer of src/server/agent/http-v2.ts, read by src/lib/sse.ts.

use openvac_web.Stream.Protocol.{V2Event}
use openvac_web.Stream.Writing.{write_items, write_items-append, write_items-live}
use openvac_web.Prelude.{
  ℕ, ◌+◌, ◌≤◌, String, ◌≡◌, refl, sym, ap, ◌∙◌, false, Option, some, List, [], ◌∷◌, ◌++◌, arith,
  length, All, All-append, ok,
}
use openvac_web.Runs.Types.{StoredRunReplay}
use openvac_web.Script.{max_safe_integer}
use openvac_web.Stream.Chunks.{joined}
use openvac_web.Stream.Events.{StreamEvent, parse_chat_event_stream}
use openvac_web.Stream.Writer.{
  Writer, Stringify, send, new_writer, StoredAnswer, answer_v3_blocks, answer_events,
  citation_events, replay_events, replay_completed, send_all, replay_response, answer_v3, answer_v2,
}
use openvac_web.Stream.Written.{frames_of}
use openvac_web.Stream.Reading.{
  is_end, Body, IsJson, Item, events_of, texts_of, numbered, read_items,
}

abbrev events_only : List V2Event → List Item
events_only [] = []
events_only (e ∷ es) = some e ∷ events_only es

send_all-events_only :
    (stringify : Stringify) (run_id : ℕ) (es : List V2Event) (w : Writer)
    → send_all stringify run_id es w ≡ write_items stringify run_id (events_only es) w
unfolding send_all
send_all-events_only stringify run_id [] w = refl
send_all-events_only stringify run_id (e ∷ es) w =
    send_all-events_only stringify run_id es (send stringify run_id e w)

events_of-events_only :
    (es : List V2Event) (last : V2Event)
    → events_of (events_only es ++ some last ∷ []) ≡ es ++ last ∷ []
events_of-events_only [] last = refl
events_of-events_only (e ∷ es) last = ap (λ l. e ∷ l) (events_of-events_only es last)

length-events_only :
    (es : List V2Event) (last : V2Event) → length (events_only es ++ some last ∷ []) ≡ length es + 1
length-events_only [] last = omega arith
length-events_only (e ∷ es) last = omega (arith, length-events_only es last)

abbrev GoesOn : List V2Event → Type 0
GoesOn es = All (λ e. is_end e ≡ false) es

blocks-GoesOn : (index : ℕ) (blocks : List String) → GoesOn (answer_v3_blocks index blocks)
unfolding answer_v3_blocks
blocks-GoesOn index [] = tt
blocks-GoesOn index (block ∷ blocks) = (refl, blocks-GoesOn (index + 1) blocks)

answer-GoesOn : (answer : StoredAnswer) → GoesOn (answer_events answer)
unfolding answer_events
answer-GoesOn (answer_v3 blocks) = blocks-GoesOn 0 blocks
answer-GoesOn (answer_v2 _ _ _ _ _) = (refl, (refl, (refl, (refl, (refl, tt)))))

citations-GoesOn : (citations : List String) → GoesOn (citation_events citations)
unfolding citation_events
citations-GoesOn [] = tt
citations-GoesOn (citation ∷ citations) = (refl, citations-GoesOn citations)

replay-GoesOn :
    (replay : StoredRunReplay) (answer : StoredAnswer) (citations : List String)
    → GoesOn (replay_events replay answer citations)
unfolding replay_events
replay-GoesOn replay answer citations = (
  refl,
  All-append (λ e. is_end e ≡ false) (answer_events answer) (citation_events citations)
      (answer-GoesOn answer) (citations-GoesOn citations),
)

-- A repeated request is answered like a live one: however the transport cuts what `replayResponse`
-- writes, the reader gets the acceptance, the blocks or sections of the stored answer, its citations
-- and the completion, numbered from 1 without a gap, and the stream ends without an error.
pub replayed_answer_read :
    {stringify : Stringify} {parse_json : List ℕ → Option StreamEvent} {body : Body}
    → IsJson stringify parse_json body
    → (replay : StoredRunReplay) (answer : StoredAnswer) (citations : List String) (meta : String)
      (chunks : List (List ℕ))
    → length (replay_events replay answer citations) + 1 ≤ max_safe_integer
    → joined chunks ≡ joined (replay_response stringify replay answer citations meta).sent
    → parse_chat_event_stream parse_json chunks ≡ (
      numbered body replay.run_id 0
          (replay_events replay answer citations ++ replay_completed replay meta ∷ []),
      ok tt,
    )
unfolding replay_response replay_completed
replayed_answer_read {stringify} json replay answer citations meta chunks few same =
    let id = replay.run_id in
    let es = replay_events replay answer citations in
    let last = replay_completed replay meta in
    let items = events_only es ++ some last ∷ [] in
    let written : (replay_response stringify replay answer citations meta).sent
        ≡ frames_of (texts_of stringify id 0 items) =
      ap (λ w. (send stringify id last w).sent) (send_all-events_only stringify id es new_writer)
      ∙ ap (λ (w : Writer). w.sent)
          (sym (write_items-append stringify id (events_only es) (some last ∷ []) new_writer)
            ∙ write_items-live stringify id 0 items []) in
    read_items json id items es last chunks (events_of-events_only es last)
      (replay-GoesOn replay answer citations) refl (omega (arith, few, length-events_only es last))
      (same ∙ ap joined written)
