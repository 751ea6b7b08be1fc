-- ===== src/Stream/Order.antt =====
-- What a reader of src/lib/sse.ts gets: the order of events and the end of the answer.
use openvac_web.Stream.Frames.{read_chunks}
use openvac_web.Prelude.{
  ℕ, ◌<◌, ◌≡◌, refl, sym, ap, subst, ◌∙◌, ◌⊎◌, inl, inr, Bool, true, false, Option, none, some,
  List, [], ◌∷◌, arith, Result, ok, err,
}
use openvac_web.Json.{Number, natural}
use openvac_web.Stream.Events.{
  v2_sequence, is_terminal, StreamEvent, Reader, StreamError, Judged, next_sequence,
  judge_completion, judge_sequence, judge_event, Reading, after_event, read_events, frame_events,
  start_reader, stream_end, parse_chat_event_stream, skips, yields,
}

abbrev pub IncreasingFrom : ℕ → Option Number → (ℕ → Type 0) → Type 0
IncreasingFrom last none rest = rest last
IncreasingFrom last (some (natural n)) rest = (last < n) × rest n
IncreasingFrom last (some _) rest = ⊥

-- Every event of version 2 has a sequence above those before it.
abbrev pub Increasing : ℕ → List StreamEvent → Type 0
Increasing last [] = Unit
Increasing last (e ∷ es) = IncreasingFrom last (v2_sequence e) (λ n. Increasing n es)

-- No event ends the answer, and once one has, nothing follows.
abbrev pub EndsOnce : Bool → List StreamEvent → Type 0
EndsOnce seen [] = Unit
EndsOnce seen (e ∷ es) = (seen ≡ false) × EndsOnce (is_terminal e) es

-- What a judgement says of the event that it lets through.
Judgement : Reader → StreamEvent → Judged → Type 0
Judgement r e (err x) = Unit
Judgement r e (ok (skips, r')) =
    (r'.last_sequence ≡ r.last_sequence) × (r'.complete_seen ≡ r.complete_seen)
Judgement r e (ok (yields, r')) =
    (r.complete_seen ≡ false)
    × (r'.complete_seen ≡ is_terminal e)
    × ((v2_sequence e ≡ none) × (r'.last_sequence ≡ r.last_sequence)
        ⊎ (v2_sequence e ≡ some (natural r'.last_sequence)) × (r.last_sequence < r'.last_sequence))

judge_event-Judgement : (r : Reader) (e : StreamEvent) → Judgement r e (judge_event r e)
unfolding Judgement judge_event judge_sequence judge_completion next_sequence
judge_event-Judgement r e = ground (arith)

-- The last event ends the answer.
abbrev pub ended : Bool → List StreamEvent → Bool
ended seen [] = seen
ended seen (e ∷ es) = ended (is_terminal e) es

record Orderly (r : Reader) (reading : Reading) : Type 0 where
  pub increasing : Increasing r.last_sequence reading.0
  pub once : EndsOnce r.complete_seen reading.0
  pub complete :
      (r' : Reader) → reading.1 ≡ ok r' → r'.complete_seen ≡ ended r.complete_seen reading.0

after_event-Orderly :
    (r : Reader) (e : StreamEvent) (j : Judged) (next : Reader → Reading)
    → Judgement r e j
    → ((r' : Reader) → Orderly r' (next r'))
    → Orderly r (after_event e j next)
unfolding Judgement
after_event-Orderly r e (err x) next k later = record {
  increasing = tt;
  once = tt;
  complete = λ r' h. absurd (cc);
}
after_event-Orderly r e (ok (skips, r')) next k later =
    let o = later r' in
    record {
      increasing = subst (λ n. Increasing n (next r').0) k.0 o.increasing;
      once = subst (λ b. EndsOnce b (next r').0) k.1 o.once;
      complete = λ x h. o.complete x h ∙ ap (λ b. ended b (next r').0) k.1;
    }
after_event-Orderly r e (ok (yields, r')) next (fresh, seen, way) later =
    let o = later r' in
    record {
      increasing = grows way o.increasing;
      once = (fresh, subst (λ b. EndsOnce b (next r').0) seen o.once);
      complete = λ x h. o.complete x h ∙ ap (λ b. ended b (next r').0) seen;
    }
  where
    grows :
        ((v2_sequence e ≡ none) × (r'.last_sequence ≡ r.last_sequence)
          ⊎ (v2_sequence e ≡ some (natural r'.last_sequence))
            × (r.last_sequence < r'.last_sequence))
        → Increasing r'.last_sequence (next r').0
        → Increasing r.last_sequence (e ∷ (next r').0)
    grows (inl (v1, same)) h =
        subst (λ q. IncreasingFrom r.last_sequence q (λ n. Increasing n (next r').0)) (sym v1)
          (subst (λ n. Increasing n (next r').0) same h)
    grows (inr (v2, more)) h =
        subst (λ q. IncreasingFrom r.last_sequence q (λ n. Increasing n (next r').0)) (sym v2)
          (more, h)

read_events-Orderly : (r : Reader) (es : List StreamEvent) → Orderly r (read_events r es)
unfolding read_events
read_events-Orderly r [] = record {
  increasing = tt;
  once = tt;
  complete = λ r' h.
      ap
        (λ (x : Result StreamError Reader). elim x [
          | ok y ↦ y.complete_seen
          | err z ↦ r.complete_seen
        ])
        (sym h);
}
read_events-Orderly r (e ∷ es) =
    after_event-Orderly r e (judge_event r e) (λ r'. read_events r' es) (judge_event-Judgement r e)
      (λ r'. read_events-Orderly r' es)

end_complete :
    (all_json seen : Bool) (end : Result StreamError Reader)
    → ((r' : Reader) → end ≡ ok r' → r'.complete_seen ≡ seen)
    → stream_end all_json end ≡ ok tt
    → seen ≡ true
end_complete all_json seen (err x) h e = absurd (ground (arith, e))
end_complete false seen (ok r) h e = absurd (ground (arith, e))
end_complete true seen (ok r) h e = sym (h r refl) ∙ ground (arith, e)

-- Whatever the chunks are, and also when the stream fails, the events that the reader yields have
-- increasing sequences and an end of the answer at most as their last; when the stream ends without
-- an error, the last event ends the answer.
pub stream_order :
    (parse_json : List ℕ → Option StreamEvent) (chunks : List (List ℕ))
    → Increasing 0 (parse_chat_event_stream parse_json chunks).0
      × EndsOnce false (parse_chat_event_stream parse_json chunks).0
      × ((parse_chat_event_stream parse_json chunks).1 ≡ ok tt
          → ended false (parse_chat_event_stream parse_json chunks).0 ≡ true)
unfolding parse_chat_event_stream
stream_order parse_json chunks =
    let frames = (read_chunks [] chunks).0 in
    let (events, all_json) = frame_events parse_json frames in
    let o = read_events-Orderly start_reader events in
    (
      o.increasing,
      o.once,
      λ e.
          end_complete all_json (ended false (read_events start_reader events).0)
            (read_events start_reader events).1 o.complete e,
    )
