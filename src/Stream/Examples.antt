-- ===== src/Stream/Examples.antt =====
-- The stream at concrete inputs.
use openvac_web.Prelude.{ℕ, ◌≡◌, refl, true, false, Option, some, List, [], ◌∷◌, ◌++◌, length, ok}
use openvac_web.Script.{codes}
use openvac_web.Json.{natural}
use openvac_web.Stream.Frames.{split_frames, read_chunks}
use openvac_web.Stream.Chunks.{joined, chunks_invariant}
use openvac_web.Stream.Events.{StreamEvent, parse_chat_event_stream}
use openvac_web.Stream.Order.{Increasing, EndsOnce, ended, stream_order}

abbrev two_chunks : List (List ℕ)
two_chunks = (codes "data:1" ++ 10 ∷ []) ∷ (10 ∷ codes "data:2" ++ 10 ∷ 10 ∷ []) ∷ []

chunks_invariant_example : read_chunks [] two_chunks ≡ split_frames ([] ++ joined two_chunks)
unfolding split_frames
chunks_invariant_example = chunks_invariant [] two_chunks (refl, (refl, tt)) refl

-- A carriage return that ends one chunk keeps its line feed in the next: no frame is seen, where
-- the whole text has one.
split_return : (read_chunks [] ((codes "x" ++ 13 ∷ 10 ∷ 13 ∷ []) ∷ (10 ∷ []) ∷ [])).0 ≡ []
unfolding read_chunks
split_return = refl

whole_return : (read_chunks [] ((codes "x" ++ 13 ∷ 10 ∷ 13 ∷ 10 ∷ []) ∷ [])).0 ≡ codes "x" ∷ []
unfolding read_chunks
whole_return = refl

-- Every text is an event that ends the answer, with its length as its sequence.
abbrev parse_length : List ℕ → Option StreamEvent
parse_length cs = some (record {
  has_run_id = true;
  sequence = some (natural (length cs));
  event_type = some "complete";
  body = "";
})

stream_order_example :
    Increasing 0 (parse_chat_event_stream parse_length two_chunks).0
    × EndsOnce false (parse_chat_event_stream parse_length two_chunks).0
    × ((parse_chat_event_stream parse_length two_chunks).1 ≡ ok tt
        → ended false (parse_chat_event_stream parse_length two_chunks).0 ≡ true)
stream_order_example = stream_order parse_length two_chunks
