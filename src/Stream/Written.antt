-- ===== src/Stream/Written.antt =====
-- The text that src/server/agent/http-v2.ts writes, in the frames that src/lib/sse.ts finds.
use openvac_web.Prelude.{
  ℕ, ◌≡◌, refl, ap, ◌∙◌, Bool, true, false, not, ◌&&◌, List, [], ◌∷◌, ◌++◌, append_assoc, arith,
  ◌==◌, every, All,
}
use openvac_web.Script.{codes, is_space}
use openvac_web.Stream.Frames.{
  push, split_frames, read_chunks, split_lines, after_prefix, trim_start_codes, data_lines,
  join_lines, frame_data,
}
use openvac_web.Stream.Chunks.{joined, chunks_invariant}
use openvac_web.Stream.Writer.{frame, keep_alive}

-- No line feed and no carriage return.
abbrev pub is_plain : ℕ → Bool
is_plain c = not (c == 10) && not (c == 13)

abbrev pub frames_of : List (List ℕ) → List (List ℕ)
frames_of [] = []
frames_of (text ∷ texts) = frame text ∷ frames_of texts

split_frames-frame :
    (text rest : List ℕ)
    → every is_plain text ≡ true
    → split_frames (text ++ 10 ∷ 10 ∷ rest) ≡ (text ∷ (split_frames rest).0, (split_frames rest).1)
unfolding split_frames
split_frames-frame [] rest e = refl
split_frames-frame (c ∷ []) rest e =
    let other : (c == 10) ≡ false = ground (arith, e) in rw other refl
split_frames-frame (c ∷ d ∷ text) rest e =
    let other : (c == 10) ≡ false = ground (arith, e) in
    let later : every is_plain (d ∷ text) ≡ true = ground (arith, e) in
    rw other (ap (push c) (split_frames-frame (d ∷ text) rest later))

-- The reader finds the texts again.
split_frames-frames_of :
    (texts : List (List ℕ))
    → All (λ text. every is_plain text ≡ true) texts
    → split_frames (joined (frames_of texts)) ≡ (texts, [])
unfolding split_frames
split_frames-frames_of [] k = refl
split_frames-frames_of (text ∷ texts) k =
    ap split_frames (append_assoc text (10 ∷ 10 ∷ []) (joined (frames_of texts)))
    ∙ split_frames-frame text (joined (frames_of texts)) k.0
    ∙ ap (λ (p : List (List ℕ) × List ℕ). (text ∷ p.0, p.1)) (split_frames-frames_of texts k.1)

abbrev no_return : ℕ → Bool
no_return c = not (c == 13)

every-append :
    (p : ℕ → Bool) (xs ys : List ℕ)
    → every p xs ≡ true
    → every p ys ≡ true
    → every p (xs ++ ys) ≡ true
every-append p [] ys e k = k
every-append p (x ∷ xs) ys e k =
    let rest = every-append p xs ys (ground (arith, e)) k in ground (arith, e, rest)

append-every :
    (p : ℕ → Bool) (xs ys : List ℕ)
    → every p (xs ++ ys) ≡ true
    → (every p xs ≡ true) × (every p ys ≡ true)
append-every p [] ys e = (refl, e)
append-every p (x ∷ xs) ys e =
    let rest = append-every p xs ys (ground (arith, e)) in (ground (arith, e, rest), rest.1)

plain-no_return : (text : List ℕ) → every is_plain text ≡ true → every no_return text ≡ true
plain-no_return [] e = refl
plain-no_return (c ∷ text) e = ground (arith, e, plain-no_return text (ground (arith, e)))

frames-no_return :
    (texts : List (List ℕ))
    → All (λ text. every is_plain text ≡ true) texts
    → every no_return (joined (frames_of texts)) ≡ true
frames-no_return [] k = refl
frames-no_return (text ∷ texts) k =
    every-append no_return (frame text) (joined (frames_of texts))
      (every-append no_return text (10 ∷ 10 ∷ []) (plain-no_return text k.0) refl)
      (frames-no_return texts k.1)

chunks-no_return :
    (chunks : List (List ℕ))
    → every no_return (joined chunks) ≡ true
    → All (λ chunk. every no_return chunk ≡ true) chunks
chunks-no_return [] e = tt
chunks-no_return (chunk ∷ chunks) e =
    let (first_one, others) = append-every no_return chunk (joined chunks) e in
    (first_one, chunks-no_return chunks others)

-- However the written text is cut, the reader finds the texts, and nothing is left.
pub read_chunks-frames_of :
    (texts chunks : List (List ℕ))
    → All (λ text. every is_plain text ≡ true) texts
    → joined chunks ≡ joined (frames_of texts)
    → read_chunks [] chunks ≡ (texts, [])
unfolding split_frames
read_chunks-frames_of texts chunks k same =
    let plain = chunks-no_return chunks (ap (every no_return) same ∙ frames-no_return texts k) in
    chunks_invariant [] chunks plain refl ∙ ap split_frames same ∙ split_frames-frames_of texts k

one_line : (text : List ℕ) → every is_plain text ≡ true → split_lines text ≡ text ∷ []
unfolding split_lines
one_line [] e = refl
one_line (c ∷ text) e =
    let other : (c == 10) ≡ false = ground (arith, e) in
    let later : every is_plain text ≡ true = ground (arith, e) in
    rw (other, one_line text later) refl

-- The data of a written event is its JSON.
pub frame_data-object :
    (json : List ℕ)
    → every is_plain json ≡ true
    → frame_data (codes "data: " ++ b'{' ∷ json) ≡ b'{' ∷ json
unfolding frame_data data_lines join_lines after_prefix trim_start_codes is_space
frame_data-object json e =
    ap (λ x. join_lines (data_lines x))
      (one_line (codes "data: " ++ b'{' ∷ json) (ground (arith, e)))

pub frame_data-keep_alive : frame_data keep_alive ≡ []
unfolding frame_data split_lines data_lines join_lines after_prefix
frame_data-keep_alive = refl
