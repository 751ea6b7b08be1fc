-- ===== src/Attachments/Chunks/Savable.antt =====
-- The chunks that src/worker/chat-storage.ts makes of a document can be saved.
use openvac_web.Script.{is_space}
use openvac_web.Attachments.Types.{AttachmentRow, ChatStorage, invalid_chunk_count}
use openvac_web.Attachments.Queue.{
  ParseJob, leased_update, max_chunks, PrivateAttachmentChunk, parsed, replace_chunks,
  save_chunks_and_complete,
}
use openvac_web.Attachments.Chunks.{
  ChunkError, max_chunk_characters, chunk_step, TextChunk, is_empty, trim, chunk_of, push_chunk,
  add_chunk, next_count, chunk_loop, chunk_text, invalid_text,
}
use openvac_web.Attachments.Chunks.Documents.{
  ParsedPage, has_text, chunks_for_parsed_document, chunks_for_csv, text_chunks,
  chunks_for_local_text,
}
use openvac_web.Attachments.Chunks.Cover.{chunk_text_complete}
use openvac_web.Attachments.Chunks.Numbers.{
  Numbered, OkThat, OkThat-then, Savable, parsed_document-Savable, csv-Savable,
}
use openvac_web.Prelude.{
  ℕ, zero, suc, ◌+◌, ◌≤◌, String, ◌≡◌, refl, sym, subst, ◌∙◌, ◌≢◌, inl, inr, Bool, true, false, not,
  ◌||◌, Option, none, some, List, [], ◌∷◌, arith, str_eq, ltb, leb, ◌==◌, if◌then◌else◌, Bool-cases,
  length, any, take, drop, get_elem?, Result, Result-cases, ◌>>=◌, ◌>>◌, ok, err,
}

abbrev HasRoom : Result ChunkError (List TextChunk) → ℕ → Type 0
HasRoom later n = n ≤ max_chunks → OkThat (λ pieces. n + length pieces ≤ max_chunks) later

few_added :
    (count start : ℕ) (raw : List ℕ) (later : Result ChunkError (List TextChunk))
    → count ≤ max_chunks
    → (next_count count raw ≤ max_chunks
        → OkThat (λ pieces. next_count count raw + length pieces ≤ max_chunks) later)
    → OkThat (λ pieces. count + length pieces ≤ max_chunks) (add_chunk count start raw later)
unfolding add_chunk push_chunk
few_added count start raw later h k = elim (Bool-cases (is_empty (trim raw))) [
  | inl blank ↦
      let e : next_count count raw ≡ count = rw blank refl in rw blank (subst (HasRoom later) e k h)
  | inr solid ↦ elim (Bool-cases (ltb max_chunks (suc count))) [
    | inl over ↦ rw (solid, over) tt
    | inr fits ↦
        let e : next_count count raw ≡ suc count = rw solid refl in
        rw (solid, fits)
          (OkThat-then (λ chunks. suc count + length chunks ≤ max_chunks)
            (λ pieces. count + length pieces ≤ max_chunks)
            (λ chunks. ok (chunk_of start raw ∷ chunks)) later
            (subst (HasRoom later) e k (ground (arith, fits))) (λ chunks m. omega (arith, m)))
  ]
]

-- The pieces of a text are not too many.
few_pieces :
    (size step fuel count start : ℕ) (rest : List ℕ)
    → count ≤ max_chunks
    → OkThat
        (λ pieces. count + length pieces ≤ max_chunks)
        (chunk_loop size step fuel count start rest)
unfolding chunk_loop
few_pieces size step zero count start [] h = omega (arith, h)
few_pieces size step zero count start (x ∷ xs) h = tt
few_pieces size step (suc fuel) count start [] h = omega (arith, h)
few_pieces size step (suc fuel) count start (x ∷ xs) h =
    few_added count start (take size (x ∷ xs)) _ h λ fits.
      elim (Bool-cases (leb (length (x ∷ xs)) size)) [
        | inl last ↦ rw last (omega (arith, fits))
        | inr more ↦ rw more (
            few_pieces size step fuel (next_count count (take size (x ∷ xs))) (start + step)
              (drop step (x ∷ xs)) fits)
      ]

text_chunks-Numbered :
    (markdown : Bool) (text : List ℕ) (n : ℕ) (pieces : List TextChunk)
    → Numbered n (text_chunks markdown text n pieces)
      × (length (text_chunks markdown text n pieces) ≡ length pieces)
unfolding text_chunks
text_chunks-Numbered markdown text n [] = (tt, refl)
text_chunks-Numbered markdown text n (c ∷ cs) =
    let (k, e) = text_chunks-Numbered markdown text (n + 1) cs in ((refl, k), omega (arith, e))

-- A text that is not blank has a character that is not white space.
solid_character :
    (text : List ℕ)
    → has_text text ≡ true
    → (i : ℕ) × (c : ℕ) × (get_elem? text i ≡ some c) × (is_space c ≡ false)
solid_character [] h = cc
solid_character (x ∷ xs) h = elim (Bool-cases (is_space x)) [
  | inl space ↦
      let deep : has_text xs ≡ true = rw space at h in
      let (i, c, at, solid) = solid_character xs deep in (suc i, c, at, solid)
  | inr solid ↦ (0, x, refl, solid)
]

some_pieces :
    (text : List ℕ) (pieces : List TextChunk)
    → has_text text ≡ true
    → chunk_text text ≡ ok pieces
    → 1 ≤ length pieces
some_pieces text [] h e =
    let (i, c, at, solid) = solid_character text h in
    elim (chunk_text_complete text) [
      | inl refused ↦ absurd (ground (arith, refused.0, e))
      | inr (chunks, found, _, covers) ↦
          let none_there : chunks ≡ [] = ground (arith, found, e) in
          let lies = covers i c at solid in absurd (ground (arith, none_there, lies))
    ]
some_pieces text (p ∷ ps) h e = omega arith

few_text : (text : List ℕ) → OkThat (λ pieces. 0 + length pieces ≤ max_chunks) (chunk_text text)
unfolding chunk_text
few_text text = few_pieces max_chunk_characters chunk_step (length text) 0 0 text (omega arith)

plain_text-Savable :
    (markdown : Bool) (text : List ℕ)
    → has_text text ≡ true
    → OkThat Savable (elim (chunk_text text) [
      | err e ↦ err e
      | ok pieces ↦ ok (text_chunks markdown text 0 pieces)
    ])
plain_text-Savable markdown text h =
    OkThat-then (λ pieces. (length pieces ≤ max_chunks) × (1 ≤ length pieces)) Savable
      (λ pieces. ok (text_chunks markdown text 0 pieces)) (chunk_text text)
      (bounds (chunk_text text) refl (few_text text))
      λ pieces b.
        let (k, e) = text_chunks-Numbered markdown text 0 pieces in
        ((k, omega (arith, b.0, e)), omega (arith, b.1, e))
  where
    bounds :
        (r : Result ChunkError (List TextChunk))
        → chunk_text text ≡ r
        → OkThat (λ pieces. 0 + length pieces ≤ max_chunks) r
        → OkThat (λ pieces. (length pieces ≤ max_chunks) × (1 ≤ length pieces)) r
    bounds (ok pieces) e m = (omega (arith, m), some_pieces text pieces h e)
    bounds (err x) e m = tt

local_text-Savable :
    (decode : List ℕ → Option (List ℕ)) (mime_type : String) (bytes : List ℕ)
    → OkThat Savable (chunks_for_local_text decode mime_type bytes)
unfolding chunks_for_local_text
local_text-Savable decode mime_type bytes = go (decode bytes)
  where
    go :
        (decoded : Option (List ℕ))
        → OkThat Savable (elim decoded [
          | none ↦ err invalid_text
          | some text ↦
              if not (has_text text) || any (λ c. c == 0) text
              then err invalid_text
              else if str_eq mime_type "text/csv"
              then chunks_for_csv text
              else elim (chunk_text text) [
                | err e ↦ err e
                | ok pieces ↦ ok (text_chunks (str_eq mime_type "text/markdown") text 0 pieces)
              ]
        ])
    go none = tt
    go (some text) = elim (Bool-cases (not (has_text text) || any (λ c. c == 0) text)) [
      | inl bad ↦ rw bad tt
      | inr good ↦ elim (Bool-cases (str_eq mime_type "text/csv")) [
        | inl csv ↦ rw (good, csv) (csv-Savable text)
        | inr plain ↦
            rw (good, plain)
              (plain_text-Savable (str_eq mime_type "text/markdown") text (ground (arith, good)))
      ]
    ]

update_count :
    (job : ParseJob) (change : AttachmentRow → AttachmentRow) (s : ChatStorage)
    → leased_update job change s ≢ err invalid_chunk_count
unfolding leased_update
update_count job change s e = ground (arith, e)

save_count :
    (chunks : List PrivateAttachmentChunk) (job : ParseJob) (now : ℕ) (s : ChatStorage)
    → length chunks ≤ max_chunks
    → 1 ≤ length chunks
    → save_chunks_and_complete job chunks now s ≢ err invalid_chunk_count
unfolding save_chunks_and_complete
save_count chunks job now s few many e =
    let fits : (ltb (length chunks) 1 || ltb max_chunks (length chunks)) ≡ false =
      ground (arith, few, many) in
    elim (Result-cases (leased_update job (λ r. r) s)) [
      | inl ((u, s'), done) ↦
          let e' : save_chunks_and_complete job chunks now s
              ≡ leased_update job (parsed now) (replace_chunks job.id chunks s') =
            rw (fits, ◌>>◌, ◌>>=◌, done) refl in
          update_count job (parsed now) (replace_chunks job.id chunks s') (sym e' ∙ e)
      | inr (x, threw) ↦
          let e' : save_chunks_and_complete job chunks now s ≡ err x =
            rw (fits, ◌>>◌, ◌>>=◌, threw) refl in
          update_count job (λ r. r) s (threw ∙ sym e' ∙ e)
    ]

-- Whatever the worker reads, a parsed document or a text file, the chunks that it makes can be saved:
-- they are numbered from zero without a gap, and there are between one and 4,096 of them, so under
-- its lease `saveChunksAndComplete` never refuses their count.
pub document_chunks_saved :
    (pages : List ParsedPage) (decode : List ℕ → Option (List ℕ)) (mime_type : String)
    (bytes : List ℕ)
    → OkThat Savable (chunks_for_parsed_document pages)
      × OkThat Savable (chunks_for_local_text decode mime_type bytes)
      × ((chunks : List PrivateAttachmentChunk) (job : ParseJob) (now : ℕ) (s : ChatStorage)
          → Savable chunks
          → save_chunks_and_complete job chunks now s ≢ err invalid_chunk_count)
document_chunks_saved pages decode mime_type bytes = (
  parsed_document-Savable pages,
  local_text-Savable decode mime_type bytes,
  λ chunks job now s k. save_count chunks job now s k.0.1 k.1,
)
