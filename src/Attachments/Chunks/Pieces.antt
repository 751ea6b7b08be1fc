-- ===== src/Attachments/Chunks/Pieces.antt =====
-- The pieces that `chunkText` of src/worker/chat-storage.ts cuts out of a text, and how far its loop is
-- with a count of them.
use native.Mathlib.Nat.{mul-le-mul_right, suc-mul}
use openvac_web.Attachments.Queue.{max_chunks}
use openvac_web.Script.{is_space}
use openvac_web.Attachments.Chunks.{
  ChunkError, TextChunk, is_empty, trim, next_count, too_many_chunks,
}
use openvac_web.Prelude.{
  ℕ, suc, ◌+◌, ◌*◌, ◌≤◌, ◌<◌, ◌≡◌, refl, ap, ◌∙◌, inl, inr, Bool, true, false, ◌&&◌, some, List, [],
  ◌∷◌, arith, ltb, leb, ltb→lt, Bool-cases, length, any, take, drop, get_elem?, length-drop,
}

-- A chunk is the piece of the text between its two offsets.
pub record IsPiece (size : ℕ) (text : List ℕ) (chunk : TextChunk) : Type 0 where
  pub span : chunk.end ≡ chunk.start + length chunk.content
  pub some_text : 1 ≤ length chunk.content
  pub bounded : length chunk.content ≤ size
  pub cut : chunk.content ≡ take (length chunk.content) (drop chunk.start text)

-- The place lies in one of the chunks.
abbrev pub covered : ℕ → List TextChunk → Bool
covered at chunks = any (λ (chunk : TextChunk). leb chunk.start at && ltb at chunk.end) chunks

-- Every character of `rest`, which begins at `start`, that is not white space lies in a chunk.
abbrev pub Covers : ℕ → List ℕ → List TextChunk → Type 0
Covers start rest chunks =
    (i c : ℕ) → get_elem? rest i ≡ some c → is_space c ≡ false → covered (start + i) chunks ≡ true

-- The one error that the loop throws, and for long texts only.
abbrev pub OfCode : ℕ → List ℕ → ChunkError → Type 0
OfCode step text e = (e ≡ too_many_chunks) × (max_chunks * step < length text)

pub too_long :
    (step count start : ℕ) (text : List ℕ)
    → ltb max_chunks (suc count) ≡ true
    → count * step ≤ start
    → start < length text
    → max_chunks * step < length text
too_long step count start text over paced inside =
    let more =
      mul-le-mul_right {m = max_chunks} {n = count} step
        (omega (arith, ltb→lt max_chunks (suc count) over)) in
    omega (arith, more, paced, inside)

pub inside_text : (start x : ℕ) (xs text : List ℕ) → x ∷ xs ≡ drop start text → start < length text
inside_text start x xs text here =
    let e = ap length here ∙ length-drop start text in omega (arith, e)

pub no_length : (xs : List ℕ) → is_empty xs ≡ true → length xs ≡ 0
no_length [] h = refl
no_length (x ∷ xs) h = cc

pub next_pace :
    (step count start : ℕ) (piece : List ℕ)
    → count * step ≤ start
    → next_count count piece * step ≤ start + step
next_pace step count start piece paced = elim (Bool-cases (is_empty (trim piece))) [
  | inl blank ↦ rw blank (omega (arith, paced))
  | inr solid ↦ rw solid (omega (arith, paced, suc-mul count step))
]
