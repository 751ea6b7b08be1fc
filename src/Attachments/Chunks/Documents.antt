-- ===== src/Attachments/Chunks/Documents.antt =====
-- `chunksForParsedDocument`, `chunksForLocalText` and `chunksForCsv` of src/worker/chat-storage.ts. The
-- text decoder is an argument; none is bytes that are not UTF-8.
use openvac_web.Script.{is_space}
use openvac_web.Attachments.Types.{Locator, page_range, text_lines, csv_rows, csv_row}
use openvac_web.Attachments.Queue.{max_chunks, PrivateAttachmentChunk}
use openvac_web.Attachments.Chunks.{
  ChunkError, max_chunk_characters, TextChunk, is_empty, trim, chunk_text, too_many_chunks, no_text,
  invalid_text, no_rows,
}
use openvac_web.Prelude.{
  ℕ, suc, ◌+◌, ◌-◌, String, ◌≡◌, refl, Bool, false, not, ◌&&◌, ◌||◌, Option, none, some, List, [],
  ◌∷◌, ◌++◌, str_eq, ltb, ◌==◌, if◌then◌else◌, length, any, take, Result, ok, err,
}

pub record ParsedPage : Type 0 where
  pub markdown : Option (List ℕ)
  pub page_number : Option ℕ

abbrev pub has_text : List ℕ → Bool
has_text content = not (is_empty (trim content))

-- The push of a chunk, and `assertChunkLimit`.
unfoldable pub push :
    List PrivateAttachmentChunk → List ℕ → Locator → Result ChunkError (List PrivateAttachmentChunk)
push chunks content locator =
    if ltb max_chunks (length chunks + 1)
    then err too_many_chunks
    else ok
        (chunks ++ record { ordinal = length chunks; content = content; locator = locator } ∷ [])

unfoldable pub push_page :
    ℕ
    → List TextChunk
    → List PrivateAttachmentChunk
    → Result ChunkError (List PrivateAttachmentChunk)
unfolding push
push_page number [] chunks = ok chunks
push_page number (c ∷ cs) chunks = elim (push chunks c.content (page_range number c.start c.end)) [
  | err e ↦ err e
  | ok more ↦ push_page number cs more
]

-- `page.pageNumber ?? pageIndex + 1`
abbrev pub number_of : ℕ → ParsedPage → ℕ
number_of index p = elim p.page_number [ none ↦ index + 1 | some n ↦ n ]

unfoldable pub page_chunks :
    ℕ → ParsedPage → List PrivateAttachmentChunk → Result ChunkError (List PrivateAttachmentChunk)
unfolding push_page chunk_text
page_chunks index p chunks = elim p.markdown [
  | none ↦ ok chunks
  | some text ↦
      if has_text text
      then elim (chunk_text (trim text)) [
        | err e ↦ err e
        | ok pieces ↦ push_page (number_of index p) pieces chunks
      ]
      else ok chunks
]

unfoldable pub pages_chunks :
    ℕ
    → List ParsedPage
    → List PrivateAttachmentChunk
    → Result ChunkError (List PrivateAttachmentChunk)
unfolding page_chunks
pages_chunks index [] chunks = ok chunks
pages_chunks index (p ∷ ps) chunks = elim (page_chunks index p chunks) [
  | err e ↦ err e
  | ok more ↦ pages_chunks (index + 1) ps more
]

unfoldable pub chunks_for_parsed_document :
    List ParsedPage → Result ChunkError (List PrivateAttachmentChunk)
unfolding pages_chunks
chunks_for_parsed_document pages = elim (pages_chunks 0 pages []) [
  | err e ↦ err e
  | ok chunks ↦ if is_empty chunks then err no_text else ok chunks
]

-- `text.split(/\r?\n/u)`
abbrev pub starts_line : List ℕ → Bool
starts_line [] = false
starts_line (c ∷ cs) = c == 10

abbrev pub prepend : ℕ → List (List ℕ) → List (List ℕ)
prepend c [] = (c ∷ []) ∷ []
prepend c (line ∷ lines) = (c ∷ line) ∷ lines

unfoldable pub split_lines : List ℕ → List (List ℕ)
split_lines [] = [] ∷ []
split_lines (c ∷ cs) =
    let rest = split_lines cs in
    if c == 10 then [] ∷ rest else if c == 13 && starts_line cs then rest else prepend c rest

-- `buffer.join("\n")`
abbrev pub join_lines : List (List ℕ) → List ℕ
join_lines [] = []
join_lines (line ∷ []) = line
join_lines (line ∷ next ∷ lines) = line ++ 10 ∷ join_lines (next ∷ lines)

pub record CsvState : Type 0 where
  pub chunks : List PrivateAttachmentChunk
  pub row_start : ℕ
  pub buffer : List (List ℕ)

-- A buffer of white space stays where it is.
unfoldable pub flush : CsvState → Result ChunkError CsvState
unfolding push
flush s =
    let content = trim (join_lines s.buffer) in
    if is_empty content
    then ok s
    else elim (push s.chunks content (csv_rows s.row_start (s.row_start + length s.buffer - 1))) [
      | err e ↦ err e
      | ok more ↦
          ok (record { chunks = more; row_start = s.row_start + length s.buffer; buffer = [] })
    ]

unfoldable pub flush_if : Bool → CsvState → Result ChunkError CsvState
unfolding flush
flush_if test s = if test then flush s else ok s

abbrev pub is_pending : CsvState → Bool
is_pending s = not (is_empty s.buffer)

unfoldable pub push_parts :
    ℕ
    → List TextChunk
    → List PrivateAttachmentChunk
    → Result ChunkError (List PrivateAttachmentChunk)
unfolding push
push_parts row [] chunks = ok chunks
push_parts row (c ∷ cs) chunks = elim (push chunks c.content (csv_row row)) [
  | err e ↦ err e
  | ok more ↦ push_parts row cs more
]

-- A line that is longer than a chunk.
unfoldable pub long_line : List ℕ → CsvState → Result ChunkError CsvState
unfolding flush_if push_parts chunk_text
long_line line s = elim (flush_if (is_pending s) s) [
  | err e ↦ err e
  | ok s' ↦ elim (chunk_text line) [
    | err e ↦ err e
    | ok parts ↦ elim (push_parts s'.row_start parts s'.chunks) [
      | err e ↦ err e
      | ok more ↦ ok (record s' { chunks = more; row_start = s'.row_start + 1 })
    ]
  ]
]

unfoldable pub add_line : List ℕ → CsvState → Result ChunkError CsvState
unfolding long_line
add_line line s =
    if ltb max_chunk_characters (length line)
    then long_line line s
    else ok (record s { buffer = s.buffer ++ line ∷ [] })

abbrev pub overflows : List ℕ → CsvState → Bool
overflows line s =
    is_pending s && ltb max_chunk_characters (length (join_lines (s.buffer ++ line ∷ [])))

unfoldable pub csv_line : List ℕ → CsvState → Result ChunkError CsvState
unfolding flush_if add_line
csv_line line s = elim (flush_if (overflows line s) s) [ err e ↦ err e | ok s' ↦ add_line line s' ]

unfoldable pub csv_lines : List (List ℕ) → CsvState → Result ChunkError CsvState
unfolding csv_line
csv_lines [] s = ok s
csv_lines (line ∷ lines) s = elim (csv_line line s) [ err e ↦ err e | ok s' ↦ csv_lines lines s' ]

unfoldable pub chunks_for_csv : List ℕ → Result ChunkError (List PrivateAttachmentChunk)
unfolding csv_lines flush_if split_lines
chunks_for_csv text =
    elim (csv_lines (split_lines text) (record { chunks = []; row_start = 1; buffer = [] })) [
      | err e ↦ err e
      | ok s ↦ elim (flush_if (is_pending s) s) [
        | err e ↦ err e
        | ok s' ↦ if is_empty s'.chunks then err no_rows else ok s'.chunks
      ]
    ]

-- `text.slice(0, offset).split("\n").length`
abbrev pub line_number : List ℕ → ℕ
line_number [] = 1
line_number (c ∷ cs) = let rest = line_number cs in if c == 10 then suc rest else rest

abbrev pub line_number_at : List ℕ → ℕ → ℕ
line_number_at text offset = line_number (take offset text)

unfoldable pub text_chunks : Bool → List ℕ → ℕ → List TextChunk → List PrivateAttachmentChunk
text_chunks markdown text ordinal [] = []
text_chunks markdown text ordinal (c ∷ cs) =
    record {
      ordinal = ordinal;
      content = c.content;
      locator = text_lines markdown (line_number_at text c.start) (line_number_at text c.end);
    }
    ∷ text_chunks markdown text (ordinal + 1) cs

unfoldable pub chunks_for_local_text :
    (List ℕ → Option (List ℕ)) → String → List ℕ → Result ChunkError (List PrivateAttachmentChunk)
unfolding chunks_for_csv text_chunks chunk_text
chunks_for_local_text decode mime_type bytes = elim (decode bytes) [
  | none ↦ err invalid_text
  | some text ↦
      if not (has_text text) || any (λ c. c == 0) text
      then err invalid_text
      else if str_eq mime_type "text/csv"
      then chunks_for_csv text
      else elim (chunk_text text) [
        | err e ↦ err e
        | ok pieces ↦ ok (text_chunks (str_eq mime_type "text/markdown") text 0 pieces)
      ]
]

csv_test :
    chunks_for_csv (97 ∷ 13 ∷ 10 ∷ 98 ∷ 10 ∷ [])
    ≡ ok (record { ordinal = 0; content = 97 ∷ 10 ∷ 98 ∷ []; locator = csv_rows 1 3 } ∷ [])
unfolding chunks_for_csv is_space flush_if
csv_test = refl
