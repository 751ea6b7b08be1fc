-- ===== src/Attachments/Chunks.antt =====
-- `chunkText`, `chunksForCsv`, `chunksForLocalText` and `chunksForParsedDocument` of
-- src/worker/chat-storage.ts. A text is its list of UTF-16 code units. The text decoder is a parameter;
-- the hash of a chunk is a function of its content and is left out.
use openvac_web.Script.{is_space}
use openvac_web.Attachments.Queue.{max_chunks}
pub mod Trim
pub mod Pieces
pub mod Cover
pub mod Numbers
pub mod Savable
pub mod Documents
use openvac_web.Prelude.{
  ℕ, zero, suc, ◌+◌, ◌≡◌, refl, Bool, true, false, ◌&&◌, List, [], ◌∷◌, ltb, leb, if◌then◌else◌,
  length, take, drop, Result, ok, err,
}

-- What the chunking throws; `stuck` is a loop that ran out of fuel.
pub data ChunkError : Type 0 where
  too_many_chunks no_text invalid_text no_rows stuck : ChunkError

abbrev pub max_chunk_characters : ℕ
max_chunk_characters = 8_000

abbrev pub chunk_step : ℕ
chunk_step = 7_800

pub record TextChunk : Type 0 where
  pub content : List ℕ
  pub start : ℕ
  pub end : ℕ

-- Leading white space.
abbrev pub leading : List ℕ → ℕ
leading [] = 0
leading (c ∷ cs) = if is_space c then suc (leading cs) else 0

abbrev pub is_empty {ℓ} : {A : Type ℓ} → List A → Bool
is_empty [] = true
is_empty (x ∷ xs) = false

abbrev pub trim_end : List ℕ → List ℕ
trim_end [] = []
trim_end (c ∷ cs) = let rest = trim_end cs in if is_empty rest && is_space c then [] else c ∷ rest

-- `raw.trim()`
abbrev pub trim : List ℕ → List ℕ
trim raw = trim_end (drop (leading raw) raw)

abbrev pub chunk_of : ℕ → List ℕ → TextChunk
chunk_of start raw = record {
  content = trim raw;
  start = start + leading raw;
  end = start + leading raw + length (trim raw);
}

-- `assertChunkLimit(chunks)` after the push of one chunk to `count` others.
unfoldable pub push_chunk :
    ℕ → TextChunk → Result ChunkError (List TextChunk) → Result ChunkError (List TextChunk)
push_chunk count chunk later =
    if ltb max_chunks (suc count)
    then err too_many_chunks
    else elim later [ ok chunks ↦ ok (chunk ∷ chunks) | err e ↦ err e ]

-- `if (content)`
unfoldable pub add_chunk :
    ℕ → ℕ → List ℕ → Result ChunkError (List TextChunk) → Result ChunkError (List TextChunk)
unfolding push_chunk
add_chunk count start raw later =
    if is_empty (trim raw) then later else push_chunk count (chunk_of start raw) later

abbrev pub next_count : ℕ → List ℕ → ℕ
next_count count raw = if is_empty (trim raw) then count else suc count

-- The loop at `start`, where `rest` is `text.slice(start)`, after `count` chunks.
unfoldable pub chunk_loop : ℕ → ℕ → ℕ → ℕ → ℕ → List ℕ → Result ChunkError (List TextChunk)
unfolding add_chunk
chunk_loop size step zero count start rest = if is_empty rest then ok [] else err stuck
chunk_loop size step (suc fuel) count start rest =
    let later =
      if leb (length rest) size
      then ok []
      else chunk_loop size step fuel (next_count count (take size rest)) (start + step)
          (drop step rest) in
    if is_empty rest then ok [] else add_chunk count start (take size rest) later

unfoldable pub chunk_text : List ℕ → Result ChunkError (List TextChunk)
unfolding chunk_loop
chunk_text text = chunk_loop max_chunk_characters chunk_step (length text) 0 0 text

chunk_text_test :
    chunk_text (32 ∷ 97 ∷ 98 ∷ 10 ∷ [])
    ≡ ok (record { content = 97 ∷ 98 ∷ []; start = 1; end = 3 } ∷ [])
unfolding chunk_text is_space
chunk_text_test = refl
