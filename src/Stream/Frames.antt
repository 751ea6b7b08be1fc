-- ===== src/Stream/Frames.antt =====
-- The frames of src/lib/sse.ts. A text is its code points; what the text decoder gives for the
-- bytes of one read is a chunk.
use openvac_web.Prelude.{ℕ, ◌&&◌, Option, none, some, List, [], ◌∷◌, ◌++◌, ◌==◌, if◌then◌else◌}
use openvac_web.Script.{codes, is_space}

-- `.replace(/\r\n/g, "\n")`, on one chunk.
unfoldable pub normalize : List ℕ → List ℕ
normalize [] = []
normalize (c ∷ []) = c ∷ []
normalize (c ∷ d ∷ cs) =
    let rest = normalize (d ∷ cs) in if c == 13 && d == 10 then rest else c ∷ rest

abbrev pub push : ℕ → List (List ℕ) × List ℕ → List (List ℕ) × List ℕ
push c ([], rest) = ([], c ∷ rest)
push c (frame ∷ frames, rest) = ((c ∷ frame) ∷ frames, rest)

abbrev pub end_frame : List (List ℕ) × List ℕ → List (List ℕ) × List ℕ
end_frame (frames, rest) = ([] ∷ frames, rest)

-- The blocks before each empty line of the buffer, and what is left of it.
unfoldable pub split_frames : List ℕ → List (List ℕ) × List ℕ
split_frames [] = ([], [])
split_frames (c ∷ []) = ([], c ∷ [])
split_frames (c ∷ d ∷ cs) =
    let after_both = end_frame (split_frames cs) in
    let after_one = push c (split_frames (d ∷ cs)) in
    if c == 10 && d == 10 then after_both else after_one

-- The blocks that the chunks give one after the other, from a buffer on.
unfoldable pub read_chunks : List ℕ → List (List ℕ) → List (List ℕ) × List ℕ
unfolding normalize split_frames
read_chunks buffer [] = ([], buffer)
read_chunks buffer (chunk ∷ chunks) =
    let (frames, rest) = split_frames (buffer ++ normalize chunk) in
    let (more, last) = read_chunks rest chunks in (frames ++ more, last)

-- `block.split("\n")`
unfoldable pub split_lines : List ℕ → List (List ℕ)
split_lines [] = [] ∷ []
split_lines (c ∷ cs) =
    let rest = split_lines cs in
    let joined : List (List ℕ) = elim rest [
      | [] ↦ (c ∷ []) ∷ []
      | line ∷ lines ↦ (c ∷ line) ∷ lines
    ] in
    if c == 10 then [] ∷ rest else joined

-- What follows a prefix, if the line has it.
unfoldable pub after_prefix : List ℕ → List ℕ → Option (List ℕ)
after_prefix [] line = some line
after_prefix (p ∷ ps) [] = none
after_prefix (p ∷ ps) (c ∷ cs) = let rest = after_prefix ps cs in if p == c then rest else none

unfoldable pub trim_start_codes : List ℕ → List ℕ
trim_start_codes [] = []
trim_start_codes (c ∷ cs) = let rest = trim_start_codes cs in if is_space c then rest else c ∷ cs

-- The data of the lines that start with `data:`, one to a line.
unfoldable pub data_lines : List (List ℕ) → List (List ℕ)
unfolding after_prefix trim_start_codes
data_lines [] = []
data_lines (line ∷ lines) =
    let rest = data_lines lines in
    elim (after_prefix (codes "data:") line) [
      | none ↦ rest
      | some data_text ↦ trim_start_codes data_text ∷ rest
    ]

unfoldable pub join_lines : List (List ℕ) → List ℕ
join_lines [] = []
join_lines (line ∷ []) = line
join_lines (line ∷ next ∷ lines) = line ++ 10 ∷ join_lines (next ∷ lines)

unfoldable pub frame_data : List ℕ → List ℕ
unfolding split_lines data_lines join_lines
frame_data block = join_lines (data_lines (split_lines block))
