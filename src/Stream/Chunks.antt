-- ===== src/Stream/Chunks.antt =====
-- How a stream is cut into chunks makes no difference to src/lib/sse.ts, without carriage returns.
use openvac_web.Prelude.{
  ℕ, ◌≡◌, refl, sym, ap, ◌∙◌, Bool, true, false, not, ◌&&◌, List, [], ◌∷◌, ◌++◌, append_assoc,
  append-nil, arith, ◌==◌, if◌then◌else◌, every, All,
}
use openvac_web.Stream.Frames.{normalize, push, end_frame, split_frames, read_chunks}

abbrev Cut : Type 0
Cut = List (List ℕ) × List ℕ

push-no_frames : (c : ℕ) (p : Cut) → (push c p).0 ≡ [] → (p.0 ≡ []) × ((push c p).1 ≡ c ∷ p.1)
push-no_frames c ([], r) e = (refl, refl)
push-no_frames c (f ∷ fs, r) e = absurd (cc)

one_char :
    (b : Bool) (c : ℕ) (cs : List ℕ) (both one : Cut)
    → (one.0 ≡ [] → one.1 ≡ cs)
    → (if b then end_frame both else push c one).0 ≡ []
    → (if b then end_frame both else push c one).1 ≡ c ∷ cs
one_char true c cs (fs, r) one h e = absurd (cc)
one_char false c cs both one h e =
    let (none_there, kept) = push-no_frames c one e in kept ∙ ap (λ x. c ∷ x) (h none_there)

-- A buffer without a whole frame is kept as it is.
no_frame_rest : (cs : List ℕ) → (split_frames cs).0 ≡ [] → (split_frames cs).1 ≡ cs
unfolding split_frames
no_frame_rest [] e = refl
no_frame_rest (c ∷ []) e = refl
no_frame_rest (c ∷ d ∷ cs) e =
    one_char (c == 10 && d == 10) c (d ∷ cs) (split_frames cs) (split_frames (d ∷ cs))
      (no_frame_rest (d ∷ cs)) e

-- The frames of a buffer that grows by a text.
abbrev grown : Cut → List ℕ → Cut
grown (frames, rest) more =
    let (later, last) = split_frames (rest ++ more) in (frames ++ later, last)

grow_both : (p : Cut) (more : List ℕ) → end_frame (grown p more) ≡ grown (end_frame p) more
grow_both (fs, r) more = refl

-- A frame that has begun takes one more character in front; a text without one is split again.
grow_one :
    (c : ℕ) (p : Cut) (whole more : List ℕ)
    → (p.0 ≡ [] → p.1 ≡ whole)
    → push c (grown p more) ≡ split_frames (c ∷ whole ++ more)
    → push c (grown p more) ≡ grown (push c p) more
grow_one c ([], r) whole more h e = e ∙ ap (λ x. split_frames (c ∷ x ++ more)) (sym (h refl))
grow_one c (f ∷ fs, r) whole more h e = refl

choose :
    (b : Bool) (c : ℕ) (whole more : List ℕ) (both one both_more one_more : Cut)
    → both_more ≡ grown both more
    → one_more ≡ grown one more
    → (one.0 ≡ [] → one.1 ≡ whole)
    → (b ≡ false → push c one_more ≡ split_frames (c ∷ whole ++ more))
    → (if b then end_frame both_more else push c one_more)
      ≡ grown (if b then end_frame both else push c one) more
choose true c whole more both one both_more one_more e k h s = ap end_frame e ∙ grow_both both more
choose false c whole more both one both_more one_more e k h s =
    ap (push c) k ∙ grow_one c one whole more h (sym (ap (push c) k) ∙ s refl)

split_frames-append : (cs more : List ℕ) → split_frames (cs ++ more) ≡ grown (split_frames cs) more
unfolding split_frames
split_frames-append [] more = refl
split_frames-append (c ∷ []) more = refl
split_frames-append (c ∷ d ∷ cs) more =
    choose (c == 10 && d == 10) c (d ∷ cs) more (split_frames cs) (split_frames (d ∷ cs))
      (split_frames (cs ++ more)) (split_frames (d ∷ cs ++ more)) (split_frames-append cs more)
      (split_frames-append (d ∷ cs) more) (no_frame_rest (d ∷ cs))
      (λ other. rw (other, split_frames) refl)

rest_one :
    (c : ℕ) (p : Cut) (whole : List ℕ)
    → (p.0 ≡ [] → p.1 ≡ whole)
    → split_frames (c ∷ whole) ≡ push c p
    → (split_frames p.1).0 ≡ []
    → (split_frames (push c p).1).0 ≡ []
rest_one c ([], r) whole h e k =
    ap (λ x. (split_frames (c ∷ x)).0) (h refl) ∙ ap (λ (x : Cut). x.0) e
rest_one c (f ∷ fs, r) whole h e k = k

rest_choose :
    (b : Bool) (c : ℕ) (whole : List ℕ) (both one : Cut)
    → (split_frames both.1).0 ≡ []
    → (split_frames one.1).0 ≡ []
    → (one.0 ≡ [] → one.1 ≡ whole)
    → (b ≡ false → split_frames (c ∷ whole) ≡ push c one)
    → (split_frames (if b then end_frame both else push c one).1).0 ≡ []
rest_choose true c whole (fs, r) one h k w s = h
rest_choose false c whole both one h k w s = rest_one c one whole w (s refl) k

-- What is left after all frames has none.
rest_no_frame : (cs : List ℕ) → (split_frames (split_frames cs).1).0 ≡ []
unfolding split_frames
rest_no_frame [] = refl
rest_no_frame (c ∷ []) = refl
rest_no_frame (c ∷ d ∷ cs) =
    rest_choose (c == 10 && d == 10) c (d ∷ cs) (split_frames cs) (split_frames (d ∷ cs))
      (rest_no_frame cs) (rest_no_frame (d ∷ cs)) (no_frame_rest (d ∷ cs))
      (λ other. rw (other, split_frames) refl)

whole_buffer : (buffer : List ℕ) → (split_frames buffer).0 ≡ [] → ([], buffer) ≡ split_frames buffer
whole_buffer buffer e = λ i. (sym e i, sym (no_frame_rest buffer e) i)

normalize-no_return : (cs : List ℕ) → every (λ c. not (c == 13)) cs ≡ true → normalize cs ≡ cs
unfolding normalize
normalize-no_return [] e = refl
normalize-no_return (c ∷ []) e = refl
normalize-no_return (c ∷ d ∷ cs) e =
    let rest = normalize-no_return (d ∷ cs) (ground (arith, e)) in
    let other : (c == 13 && d == 10) ≡ false = ground (arith, e) in rw other (ap (λ x. c ∷ x) rest)

abbrev pub joined : List (List ℕ) → List ℕ
joined [] = []
joined (chunk ∷ chunks) = chunk ++ joined chunks

-- However a text without carriage returns is cut into chunks, the reader gets the frames of the
-- whole text and keeps the rest of the whole text.
pub chunks_invariant :
    (buffer : List ℕ) (chunks : List (List ℕ))
    → All (λ chunk. every (λ c. not (c == 13)) chunk ≡ true) chunks
    → (split_frames buffer).0 ≡ []
    → read_chunks buffer chunks ≡ split_frames (buffer ++ joined chunks)
unfolding read_chunks
chunks_invariant buffer [] k e = whole_buffer buffer e ∙ ap split_frames (sym (append-nil buffer))
chunks_invariant buffer (chunk ∷ chunks) k e =
    let cut = split_frames (buffer ++ chunk) in
    let later = chunks_invariant cut.1 chunks k.1 (rest_no_frame (buffer ++ chunk)) in
    let plain = normalize-no_return chunk k.0 in
    ap
      (λ x.
        let more = read_chunks (split_frames (buffer ++ x)).1 chunks in
        ((split_frames (buffer ++ x)).0 ++ more.0, more.1))
      plain
    ∙ ap (λ (more : Cut). (cut.0 ++ more.0, more.1)) later
    ∙ sym (split_frames-append (buffer ++ chunk) (joined chunks))
    ∙ ap split_frames (append_assoc buffer chunk (joined chunks))
