-- ===== src/Stream/Answers.antt =====
-- A live answer of src/server/agent/http-v2.ts, from the server to the reader of src/lib/sse.ts.

use openvac_web.Stream.Protocol.{V2Event, emit_orchestrator_event}
use openvac_web.Stream.Writing.{write_item, write_items, write_items-append, write_items-live}
use openvac_web.Prelude.{
  ℕ, ◌+◌, ◌≤◌, ◌≡◌, refl, sym, ap, ◌∙◌, Bool, true, false, Option, none, some, List, [], ◌∷◌, ◌++◌,
  arith, length, All, ok,
}
use openvac_web.Runs.Types.{CreatedRun}
use openvac_web.Script.{max_safe_integer}
use openvac_web.Stream.Chunks.{joined}
use openvac_web.Stream.Events.{StreamEvent, parse_chat_event_stream}
use openvac_web.Stream.Writer.{
  Writer, Stringify, send, heartbeat, StreamStep, stream_step, stream_steps, OrchestratorEnd,
  final_event, accepted, new_writer, stream_run, emits, beats, client_goes, client_cancels,
}
use openvac_web.Stream.Written.{frames_of}
use openvac_web.Stream.Reading.{
  is_end, Body, IsJson, Item, events_of, texts_of, numbered, read_items,
}

-- The client stays to the end.
abbrev pub stays : StreamStep → Bool
stays (emits _) = true
stays beats = true
stays _ = false

abbrev items_of : List StreamStep → List Item
items_of [] = []
items_of (emits e ∷ steps) = some (emit_orchestrator_event e) ∷ items_of steps
items_of (_ ∷ steps) = none ∷ items_of steps

-- The events of the orchestrator.
abbrev pub emitted : List StreamStep → List V2Event
emitted [] = []
emitted (emits e ∷ steps) = emit_orchestrator_event e ∷ emitted steps
emitted (_ ∷ steps) = emitted steps

stream_steps-stays :
    (stringify : Stringify) (run_id : ℕ) (steps : List StreamStep) (w : Writer)
    → All (λ step. stays step ≡ true) steps
    → stream_steps stringify run_id steps w ≡ write_items stringify run_id (items_of steps) w
unfolding stream_steps stream_step
stream_steps-stays stringify run_id [] w k = refl
stream_steps-stays stringify run_id (emits e ∷ steps) w k =
    stream_steps-stays stringify run_id steps (send stringify run_id (emit_orchestrator_event e) w)
      k.1
stream_steps-stays stringify run_id (beats ∷ steps) w k =
    stream_steps-stays stringify run_id steps (heartbeat w) k.1
stream_steps-stays stringify run_id (client_goes ∷ steps) w k = absurd (cc)
stream_steps-stays stringify run_id (client_cancels ∷ steps) w k = absurd (cc)

events_of-items_of :
    (steps : List StreamStep) (last : V2Event)
    → events_of (items_of steps ++ some last ∷ []) ≡ emitted steps ++ last ∷ []
events_of-items_of [] last = refl
events_of-items_of (emits e ∷ steps) last =
    ap (λ l. emit_orchestrator_event e ∷ l) (events_of-items_of steps last)
events_of-items_of (beats ∷ steps) last = events_of-items_of steps last
events_of-items_of (client_goes ∷ steps) last = events_of-items_of steps last
events_of-items_of (client_cancels ∷ steps) last = events_of-items_of steps last

length-items_of :
    (steps : List StreamStep) (last : V2Event)
    → length (items_of steps ++ some last ∷ []) ≡ length steps + 1
length-items_of [] last = omega arith
length-items_of (emits e ∷ steps) last = omega (arith, length-items_of steps last)
length-items_of (beats ∷ steps) last = omega (arith, length-items_of steps last)
length-items_of (client_goes ∷ steps) last = omega (arith, length-items_of steps last)
length-items_of (client_cancels ∷ steps) last = omega (arith, length-items_of steps last)

emitted_go_on : (steps : List StreamStep) → All (λ e. is_end e ≡ false) (emitted steps)
unfolding emit_orchestrator_event
emitted_go_on [] = tt
emitted_go_on (emits e ∷ steps) = (ground arith, emitted_go_on steps)
emitted_go_on (beats ∷ steps) = emitted_go_on steps
emitted_go_on (client_goes ∷ steps) = emitted_go_on steps
emitted_go_on (client_cancels ∷ steps) = emitted_go_on steps

final_event-is_end :
    (run : CreatedRun) (end : OrchestratorEnd) → is_end (final_event run end) ≡ true
unfolding final_event
final_event-is_end run end = ground arith

-- A live answer reaches its reader: if the client stays to the end, then however the transport cuts
-- what the server has written, the reader gets the acceptance, each event of the orchestrator and the
-- one end of the run, numbered from 1 without a gap and with the fields that were written, and the
-- stream ends without an error, whatever the end of the run is and wherever keep-alives fall.
pub live_answer_read :
    {stringify : Stringify} {parse_json : List ℕ → Option StreamEvent} {body : Body}
    → IsJson stringify parse_json body
    → (run : CreatedRun) (steps : List StreamStep) (end : OrchestratorEnd) (chunks : List (List ℕ))
    → All (λ step. stays step ≡ true) steps
    → length steps + 2 ≤ max_safe_integer
    → joined chunks ≡ joined (stream_run stringify run steps end).sent
    → parse_chat_event_stream parse_json chunks ≡ (
      numbered body run.run_id 0 (accepted run ∷ emitted steps ++ final_event run end ∷ []),
      ok tt,
    )
unfolding stream_run
live_answer_read {stringify} json run steps end chunks stay few same =
    let id = run.run_id in
    let last = final_event run end in
    let items = some (accepted run) ∷ items_of steps ++ some last ∷ [] in
    let begun = write_item stringify id (some (accepted run)) new_writer in
    let written : (stream_run stringify run steps end).sent
        ≡ frames_of (texts_of stringify id 0 items) =
      ap (λ w. (send stringify id last w).sent) (stream_steps-stays stringify id steps begun stay)
      ∙ ap (λ (w : Writer). w.sent)
          (sym (write_items-append stringify id (items_of steps) (some last ∷ []) begun))
      ∙ ap (λ (w : Writer). w.sent) (write_items-live stringify id 0 items []) in
    read_items json id items (accepted run ∷ emitted steps) last chunks
      (ap (λ l. accepted run ∷ l) (events_of-items_of steps last)) (refl, emitted_go_on steps)
      (final_event-is_end run end) (omega (arith, few, length-items_of steps last))
      (same ∙ ap joined written)
