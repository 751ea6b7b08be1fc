-- ===== src/Attachments/Chunks/Cover.antt =====
-- `chunkText` of src/worker/chat-storage.ts ends, cuts its chunks out of the text and leaves nothing out
-- but white space.
use openvac_web.Attachments.Queue.{max_chunks}
use openvac_web.Attachments.Chunks.Trim.{trim-prefix, length-trim, trim-cover}
use openvac_web.Script.{is_space}
use openvac_web.Attachments.Chunks.{
  ChunkError, max_chunk_characters, chunk_step, TextChunk, leading, is_empty, trim, chunk_of,
  push_chunk, add_chunk, next_count, chunk_loop, chunk_text, too_many_chunks,
}
use openvac_web.Prelude.{
  ℕ, zero, suc, ◌+◌, ◌-◌, ◌*◌, ◌≤◌, ◌<◌, ◌≡◌, refl, sym, ap, subst, ◌∙◌, ◌⊎◌, inl, inr, true, false,
  ◌&&◌, some, List, [], ◌∷◌, arith, ltb, leb, ltb→lt, leb→le, Bool-cases, length, All, take, drop,
  get_elem?, length-drop, length-take-le, take-take, drop-take, drop-drop, get_elem?-drop,
  get_elem?-take, get_elem?-lt-length, Result, ok, err,
}
use openvac_web.Attachments.Chunks.Pieces.{
  IsPiece, covered, Covers, OfCode, too_long, inside_text, no_length, next_pace,
}

module _ (text : List ℕ) (size step : ℕ) (some_step : 0 < step) (overlap : step ≤ size) where
  abbrev Piece : TextChunk → Type 0
  Piece = IsPiece size text

  -- A result that is not the error of the model, with pieces that cover what is left.
  abbrev Good : ℕ → List ℕ → Result ChunkError (List TextChunk) → Type 0
  Good start rest (ok chunks) = All Piece chunks × Covers start rest chunks
  Good start rest (err e) = OfCode step text e

  -- The same for the places from `size` on.
  abbrev GoodBeyond : ℕ → List ℕ → Result ChunkError (List TextChunk) → Type 0
  GoodBeyond start rest (ok chunks) =
      All Piece chunks
      × ((i c : ℕ)
          → get_elem? rest i ≡ some c
          → is_space c ≡ false
          → size ≤ i
          → covered (start + i) chunks ≡ true)
  GoodBeyond start rest (err e) = OfCode step text e

  module _ (start : ℕ) (rest : List ℕ) (here : rest ≡ drop start text) where
    chunk_of-IsPiece :
        is_empty (trim (take size rest)) ≡ false → Piece (chunk_of start (take size rest))
    chunk_of-IsPiece solid =
        let raw = take size rest in
        let kept = length (trim raw) in
        let short = length-trim raw in
        let few = length-take-le size rest in
        record {
          span = refl;
          some_text = ground (arith, solid);
          bounded = omega (arith, short, few);
          cut =
              trim-prefix raw
              ∙ ap (take kept) (drop-take (leading raw) size rest)
              ∙ take-take kept (size - leading raw) (drop (leading raw) rest)
                  (omega (arith, short, few))
              ∙ ap (λ ys. take kept (drop (leading raw) ys)) here
              ∙ ap (take kept) (drop-drop (leading raw) start text);
        }

    chunk_of-covers :
        (i c : ℕ)
        → get_elem? rest i ≡ some c
        → is_space c ≡ false
        → i < size
        → (leb (start + leading (take size rest)) (start + i)
            && ltb (start + i) (start + leading (take size rest) + length (trim (take size rest))))
          ≡ true
    chunk_of-covers i c e h below =
        let (l, r) = trim-cover (take size rest) i (get_elem?-take size i rest below ∙ e) h in
        ground (arith, l, r)

    -- What an empty piece leaves out, if anything, is white space.
    blank-covers :
        is_empty (trim (take size rest)) ≡ true
        → (i c : ℕ) → get_elem? rest i ≡ some c
        → is_space c ≡ false
        → size ≤ i
    blank-covers blank i c e h = elim (Bool-cases (ltb i size)) [
      | inl below ↦
          let (l, r) =
            trim-cover (take size rest) i (get_elem?-take size i rest (ground (arith, below)) ∙ e)
              h in
          let none_left : length (trim (take size rest)) ≡ 0 =
            no_length (trim (take size rest)) blank in
          absurd (omega (arith, l, r, none_left))
      | inr far ↦ ground (arith, far)
    ]

    all_covered :
        (chunks : List TextChunk)
        → ((i c : ℕ)
            → get_elem? rest i ≡ some c
            → is_space c ≡ false
            → size ≤ i
            → covered (start + i) chunks ≡ true)
        → Covers start rest (chunk_of start (take size rest) ∷ chunks)
    all_covered chunks beyond i c e h = elim (Bool-cases (ltb i size)) [
      | inl below ↦ ground (arith, chunk_of-covers i c e h (ltb→lt i size below))
      | inr far ↦ let there = beyond i c e h (ground (arith, far)) in ground (arith, there)
    ]

    push_err :
        (count : ℕ) (e : ChunkError)
        → count * step ≤ start
        → start < length text
        → OfCode step text e
        → Good start rest (push_chunk count (chunk_of start (take size rest)) (err e))
    unfolding push_chunk
    push_err count e paced inside h = elim (Bool-cases (ltb max_chunks (suc count))) [
      | inl over ↦ rw over (refl, too_long step count start text over paced inside)
      | inr fits ↦ rw fits h
    ]

    push-Good :
        (count : ℕ) (chunks : List TextChunk)
        → count * step ≤ start
        → start < length text
        → GoodBeyond start rest (ok chunks)
        → is_empty (trim (take size rest)) ≡ false
        → Good start rest (push_chunk count (chunk_of start (take size rest)) (ok chunks))
    unfolding push_chunk
    push-Good count chunks paced inside g solid = elim (Bool-cases (ltb max_chunks (suc count))) [
      | inl over ↦ rw over (refl, too_long step count start text over paced inside)
      | inr fits ↦ rw fits ((chunk_of-IsPiece solid, g.0), all_covered chunks g.1)
    ]

    add_chunk-Good :
        (count : ℕ) (later : Result ChunkError (List TextChunk))
        → count * step ≤ start
        → start < length text
        → GoodBeyond start rest later
        → Good start rest (add_chunk count start (take size rest) later)
    unfolding add_chunk push_chunk
    add_chunk-Good count later paced inside g =
        elim (Bool-cases (is_empty (trim (take size rest)))) [
          | inl blank ↦
              let e : add_chunk count start (take size rest) later ≡ later = rw blank refl in
              subst (Good start rest) (sym e) (skip later g blank)
          | inr solid ↦
              let e : add_chunk count start (take size rest) later
                  ≡ push_chunk count (chunk_of start (take size rest)) later =
                rw solid refl in
              subst (Good start rest) (sym e) (push later g solid)
        ]
      where
        skip :
            (later : Result ChunkError (List TextChunk))
            → GoodBeyond start rest later
            → is_empty (trim (take size rest)) ≡ true
            → Good start rest later
        skip (ok chunks) g blank = (g.0, λ i c e h. g.1 i c e h (blank-covers blank i c e h))
        skip (err e) g blank = g

        push :
            (later : Result ChunkError (List TextChunk))
            → GoodBeyond start rest later
            → is_empty (trim (take size rest)) ≡ false
            → Good start rest (push_chunk count (chunk_of start (take size rest)) later)
        push (ok chunks) g solid = push-Good count chunks paced inside g solid
        push (err e) g solid = push_err count e paced inside g

  -- What the next round covers is what the piece here leaves.
  next-GoodBeyond :
      (start : ℕ) (rest : List ℕ) (r : Result ChunkError (List TextChunk))
      → Good (start + step) (drop step rest) r
      → GoodBeyond start rest r
  next-GoodBeyond start rest (err e) g = g
  next-GoodBeyond start rest (ok chunks) g = (
    g.0,
    λ i c e h far.
        let back : step + (i - step) ≡ i = omega (arith, far, overlap) in
        let e' : get_elem? (drop step rest) (i - step) ≡ some c =
          get_elem?-drop step (i - step) rest ∙ (rw back e) in
        let at : start + step + (i - step) ≡ start + i = omega (arith, back) in
        subst (λ n. covered n chunks ≡ true) at (g.1 (i - step) c e' h),
  )

  -- Nothing is left when the piece here is the last.
  last-GoodBeyond : (start : ℕ) (rest : List ℕ) → length rest ≤ size → GoodBeyond start rest (ok [])
  last-GoodBeyond start rest few =
      (tt, λ i c e h far. absurd (omega (arith, get_elem?-lt-length rest i e, few, far)))

  chunk_loop-Good :
      (fuel count start : ℕ) (rest : List ℕ)
      → rest ≡ drop start text
      → count * step ≤ start
      → length rest ≤ fuel
      → Good start rest (chunk_loop size step fuel count start rest)
  unfolding chunk_loop
  chunk_loop-Good zero count start [] here paced enough = (tt, λ i c e h. cc)
  chunk_loop-Good zero count start (x ∷ xs) here paced enough = absurd (omega arith)
  chunk_loop-Good (suc fuel) count start [] here paced enough = (tt, λ i c e h. cc)
  chunk_loop-Good (suc fuel) count start (x ∷ xs) here paced enough =
      add_chunk-Good start (x ∷ xs) here count _ paced (inside_text start x xs text here)
        (elim (Bool-cases (leb (length (x ∷ xs)) size)) [
          | inl last ↦ rw last (last-GoodBeyond start (x ∷ xs) (leb→le _ _ last))
          | inr more ↦ rw more (
              next-GoodBeyond start (x ∷ xs) _ (
                chunk_loop-Good fuel (next_count count (take size (x ∷ xs))) (start + step)
                  (drop step (x ∷ xs)) (ap (drop step) here ∙ drop-drop step start text)
                  (next_pace step count start (take size (x ∷ xs)) paced)
                  (omega (arith, length-drop step (x ∷ xs), some_step, enough))))
        ])

-- `chunkText` ends, and never by running out of rounds: it throws only for a text of more than
-- 4,096 times 7,800 characters, and otherwise every chunk is a piece of the text of one to 8,000 characters between its two
-- offsets, and every character that is not white space lies in a chunk.
pub chunk_text_complete :
    (text : List ℕ)
    → ((chunk_text text ≡ err too_many_chunks) × (max_chunks * chunk_step < length text))
      ⊎ ((chunks : List TextChunk) × (chunk_text text ≡ ok chunks)
          × All (IsPiece max_chunk_characters text) chunks
          × Covers 0 text chunks)
unfolding chunk_text
chunk_text_complete text = go (chunk_text text) refl (
    chunk_loop-Good text max_chunk_characters chunk_step (omega arith) (omega arith) (length text) 0
      0 text refl (omega arith) (omega arith))
  where
    go :
        (r : Result ChunkError (List TextChunk))
        → chunk_text text ≡ r
        → Good text max_chunk_characters chunk_step (omega arith) (omega arith) 0 text r
        → ((chunk_text text ≡ err too_many_chunks) × (max_chunks * chunk_step < length text))
          ⊎ ((chunks : List TextChunk) × (chunk_text text ≡ ok chunks)
              × All (IsPiece max_chunk_characters text) chunks
              × Covers 0 text chunks)
    go (ok chunks) e g = inr (chunks, e, g.0, g.1)
    go (err x) e g = inl (e ∙ ap err g.0, g.1)
