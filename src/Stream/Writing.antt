-- ===== src/Stream/Writing.antt =====
-- A stream of src/server/agent/http-v2.ts whose client is there: what its sends leave.

use openvac_web.Prelude.{
  ℕ, ◌+◌, ◌≡◌, refl, sym, ap, ◌∙◌, false, none, some, List, [], ◌∷◌, ◌++◌, append_assoc, append-nil,
}
use openvac_web.Stream.Writer.{
  Writer, Stringify, frame, data_text, keep_alive, enqueue, send, heartbeat,
}
use openvac_web.Stream.Written.{frames_of}
use openvac_web.Stream.Reading.{Item, texts_of}

abbrev pub write_item : Stringify → ℕ → Item → Writer → Writer
write_item stringify run_id none w = heartbeat w
write_item stringify run_id (some e) w = send stringify run_id e w

abbrev pub write_items : Stringify → ℕ → List Item → Writer → Writer
write_items stringify run_id [] w = w
write_items stringify run_id (item ∷ items) w =
    write_items stringify run_id items (write_item stringify run_id item w)

pub write_items-append :
    (stringify : Stringify) (run_id : ℕ) (items more : List Item) (w : Writer)
    → write_items stringify run_id (items ++ more) w
      ≡ write_items stringify run_id more (write_items stringify run_id items w)
write_items-append stringify run_id [] more w = refl
write_items-append stringify run_id (item ∷ items) more w =
    write_items-append stringify run_id items more (write_item stringify run_id item w)

-- A stream whose client is there, after some events.
abbrev pub live : ℕ → List (List ℕ) → Writer
live n sent = record { sequence = n; closed = false; client_gone = false; sent = sent }

abbrev pub last_number : ℕ → List Item → ℕ
last_number n [] = n
last_number n (none ∷ items) = last_number n items
last_number n (some e ∷ items) = last_number (n + 1) items

pub write_items-live :
    (stringify : Stringify) (run_id n : ℕ) (items : List Item) (sent : List (List ℕ))
    → write_items stringify run_id items (live n sent)
      ≡ live (last_number n items) (sent ++ frames_of (texts_of stringify run_id n items))
unfolding send heartbeat enqueue
write_items-live stringify run_id n [] sent = ap (live n) (sym (append-nil sent))
write_items-live stringify run_id n (none ∷ items) sent =
    write_items-live stringify run_id n items (sent ++ frame keep_alive ∷ [])
    ∙ ap (live (last_number n items))
        (append_assoc sent (frame keep_alive ∷ []) (frames_of (texts_of stringify run_id n items)))
write_items-live stringify run_id n (some e ∷ items) sent =
    let text = data_text stringify run_id (n + 1) e in
    write_items-live stringify run_id (n + 1) items (sent ++ frame text ∷ [])
    ∙ ap (live (last_number (n + 1) items))
        (append_assoc sent (frame text ∷ []) (frames_of (texts_of stringify run_id (n + 1) items)))
