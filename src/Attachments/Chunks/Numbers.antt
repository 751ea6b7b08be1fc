-- ===== src/Attachments/Chunks/Numbers.antt =====
-- The chunks of a document in src/worker/chat-storage.ts are numbered from zero and are not too many.

use openvac_web.Attachments.Types.{Locator, page_range, csv_rows, csv_row}
use openvac_web.Attachments.Queue.{max_chunks, PrivateAttachmentChunk}
use openvac_web.Attachments.Chunks.{
  ChunkError, max_chunk_characters, TextChunk, is_empty, trim, chunk_text, no_text, no_rows,
}
use openvac_web.Attachments.Chunks.Documents.{
  ParsedPage, has_text, push, push_page, number_of, page_chunks, pages_chunks,
  chunks_for_parsed_document, split_lines, join_lines, CsvState, flush, flush_if, is_pending,
  push_parts, long_line, add_line, overflows, csv_line, csv_lines, chunks_for_csv,
}
use openvac_web.Prelude.{
  ℕ, ◌+◌, ◌-◌, ◌≤◌, ◌≡◌, inl, inr, Bool, true, false, List, [], ◌∷◌, ◌++◌, arith, ltb,
  if◌then◌else◌, Bool-cases, Option-cases, length, length-append, Result, ok, err,
}

abbrev pub Numbered : ℕ → List PrivateAttachmentChunk → Type 0
Numbered n [] = Unit {0}
Numbered n (c ∷ cs) = (c.ordinal ≡ n) × Numbered (n + 1) cs

-- The chunks that a push has let through.
abbrev pub Pushed : List PrivateAttachmentChunk → Type 0
Pushed chunks = Numbered 0 chunks × (length chunks ≤ max_chunks)

-- What a result holds if it is not an error.
abbrev pub OkThat : {A : Type 0} → (A → Type 0) → Result ChunkError A → Type 0
OkThat P (ok a) = P a
OkThat P (err e) = Unit {0}

pub OkThat-then :
    {A B : Type 0} (P : A → Type 0) (Q : B → Type 0) (f : A → Result ChunkError B)
    (r : Result ChunkError A)
    → OkThat P r
    → ((a : A) → P a → OkThat Q (f a))
    → OkThat Q (elim r [ err e ↦ err e | ok a ↦ f a ])
OkThat-then P Q f (ok a) h k = k a h
OkThat-then P Q f (err e) h k = tt

anything : {A : Type 0} (r : Result ChunkError A) → OkThat (λ _. Unit {0}) r
anything (ok a) = tt
anything (err e) = tt

Numbered-append :
    (n : ℕ) (cs : List PrivateAttachmentChunk) (c : PrivateAttachmentChunk)
    → Numbered n cs
    → c.ordinal ≡ n + length cs
    → Numbered n (cs ++ c ∷ [])
Numbered-append n [] c h e = (omega (arith, e), tt)
Numbered-append n (x ∷ xs) c h e = (h.0, Numbered-append (n + 1) xs c h.1 (omega (arith, e)))

push-Pushed :
    (chunks : List PrivateAttachmentChunk) (content : List ℕ) (locator : Locator)
    → Pushed chunks
    → OkThat Pushed (push chunks content locator)
unfolding push
push-Pushed chunks content locator h = elim (Bool-cases (ltb max_chunks (length chunks + 1))) [
  | inl over ↦ rw over tt
  | inr fits ↦ rw fits (
    Numbered-append 0 chunks _ h.0 (omega arith),
    ground (
      arith,
      fits,
      length-append {0} chunks
          (record { ordinal = length chunks; content = content; locator = locator } ∷ []),
    ),
  )
]

push_page-Pushed :
    (number : ℕ) (pieces : List TextChunk) (chunks : List PrivateAttachmentChunk)
    → Pushed chunks
    → OkThat Pushed (push_page number pieces chunks)
unfolding push_page
push_page-Pushed number [] chunks h = h
push_page-Pushed number (c ∷ cs) chunks h =
    OkThat-then Pushed Pushed (push_page number cs) _
      (push-Pushed chunks c.content (page_range number c.start c.end) h)
      (λ more k. push_page-Pushed number cs more k)

page_chunks-Pushed :
    (index : ℕ) (p : ParsedPage) (chunks : List PrivateAttachmentChunk)
    → Pushed chunks
    → OkThat Pushed (page_chunks index p chunks)
unfolding page_chunks
page_chunks-Pushed index p chunks h = elim (Option-cases p.markdown) [
  | inl blank ↦
      let e : page_chunks index p chunks ≡ ok chunks = ground (arith, blank) in rw (e, OkThat) h
  | inr (text, there) ↦ elim (Bool-cases (has_text text)) [
    | inl full ↦
        let e : page_chunks index p chunks ≡ elim (chunk_text (trim text)) [
          | err e ↦ err e
          | ok pieces ↦ push_page (number_of index p) pieces chunks
        ] =
          ground (arith, there, full) in
        rw e (
          OkThat-then (λ _. Unit {0}) Pushed (λ pieces. push_page (number_of index p) pieces chunks)
            (chunk_text (trim text)) (anything (chunk_text (trim text)))
            (λ pieces _. push_page-Pushed (number_of index p) pieces chunks h))
    | inr empty ↦
        let e : page_chunks index p chunks ≡ ok chunks = ground (arith, there, empty) in
        rw (e, OkThat) h
  ]
]

pages_chunks-Pushed :
    (index : ℕ) (ps : List ParsedPage) (chunks : List PrivateAttachmentChunk)
    → Pushed chunks
    → OkThat Pushed (pages_chunks index ps chunks)
unfolding pages_chunks
pages_chunks-Pushed index [] chunks h = h
pages_chunks-Pushed index (p ∷ ps) chunks h =
    OkThat-then Pushed Pushed (pages_chunks (index + 1) ps) _ (page_chunks-Pushed index p chunks h)
      (λ more k. pages_chunks-Pushed (index + 1) ps more k)

-- Chunks that can be saved.
abbrev pub Savable : List PrivateAttachmentChunk → Type 0
Savable chunks = Pushed chunks × (1 ≤ length chunks)

some_chunks :
    (chunks : List PrivateAttachmentChunk) (refusal : ChunkError)
    → Pushed chunks
    → OkThat Savable (if is_empty chunks then err refusal else ok chunks)
some_chunks [] refusal h = tt
some_chunks (c ∷ cs) refusal h = (h, omega arith)

pub parsed_document-Savable :
    (pages : List ParsedPage) → OkThat Savable (chunks_for_parsed_document pages)
unfolding chunks_for_parsed_document
parsed_document-Savable pages =
    OkThat-then Pushed Savable (λ chunks. if is_empty chunks then err no_text else ok chunks) _
      (pages_chunks-Pushed 0 pages [] (tt, omega arith)) (λ chunks h. some_chunks chunks no_text h)

abbrev Kept : CsvState → Type 0
Kept s = Pushed s.chunks

flush-Kept : (s : CsvState) → Kept s → OkThat Kept (flush s)
unfolding flush
flush-Kept s h = elim (Bool-cases (is_empty (trim (join_lines s.buffer)))) [
  | inl blank ↦ rw blank h
  | inr full ↦ rw full (
      OkThat-then Pushed Kept
        (λ more.
          ok (record { chunks = more; row_start = s.row_start + length s.buffer; buffer = [] }))
        _
        (push-Pushed s.chunks (trim (join_lines s.buffer))
          (csv_rows s.row_start (s.row_start + length s.buffer - 1)) h)
        (λ more k. k))
]

flush_if-Kept : (test : Bool) (s : CsvState) → Kept s → OkThat Kept (flush_if test s)
unfolding flush_if
flush_if-Kept true s h = flush-Kept s h
flush_if-Kept false s h = h

push_parts-Pushed :
    (row : ℕ) (parts : List TextChunk) (chunks : List PrivateAttachmentChunk)
    → Pushed chunks
    → OkThat Pushed (push_parts row parts chunks)
unfolding push_parts
push_parts-Pushed row [] chunks h = h
push_parts-Pushed row (c ∷ cs) chunks h =
    OkThat-then Pushed Pushed (push_parts row cs) _ (push-Pushed chunks c.content (csv_row row) h)
      (λ more k. push_parts-Pushed row cs more k)

long_line-Kept : (line : List ℕ) (s : CsvState) → Kept s → OkThat Kept (long_line line s)
unfolding long_line
long_line-Kept line s h = OkThat-then Kept Kept _ _ (flush_if-Kept (is_pending s) s h) λ s' k.
    OkThat-then (λ _. Unit {0}) Kept _ _ (anything (chunk_text line))
      λ parts _.
        OkThat-then Pushed Kept
          (λ more. ok (record s' { chunks = more; row_start = s'.row_start + 1 })) _
          (push_parts-Pushed s'.row_start parts s'.chunks k) (λ more m. m)

add_line-Kept : (line : List ℕ) (s : CsvState) → Kept s → OkThat Kept (add_line line s)
unfolding add_line
add_line-Kept line s h = elim (Bool-cases (ltb max_chunk_characters (length line))) [
  | inl long ↦ rw long (long_line-Kept line s h)
  | inr short ↦ rw short h
]

csv_line-Kept : (line : List ℕ) (s : CsvState) → Kept s → OkThat Kept (csv_line line s)
unfolding csv_line
csv_line-Kept line s h =
    OkThat-then Kept Kept (add_line line) _ (flush_if-Kept (overflows line s) s h)
      (λ s' k. add_line-Kept line s' k)

csv_lines-Kept : (ls : List (List ℕ)) (s : CsvState) → Kept s → OkThat Kept (csv_lines ls s)
unfolding csv_lines
csv_lines-Kept [] s h = h
csv_lines-Kept (line ∷ ls) s h =
    OkThat-then Kept Kept (csv_lines ls) _ (csv_line-Kept line s h) (λ s' k. csv_lines-Kept ls s' k)

pub csv-Savable : (text : List ℕ) → OkThat Savable (chunks_for_csv text)
unfolding chunks_for_csv
csv-Savable text =
    OkThat-then Kept Savable _ _
      (csv_lines-Kept (split_lines text) (record { chunks = []; row_start = 1; buffer = [] })
        (tt, omega arith))
      λ s k.
        OkThat-then Kept Savable (λ s'. if is_empty s'.chunks then err no_rows else ok s'.chunks) _
          (flush_if-Kept (is_pending s) s k) (λ s' k'. some_chunks s'.chunks no_rows k')
