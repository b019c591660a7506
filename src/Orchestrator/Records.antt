-- ===== src/Orchestrator/Records.antt =====
-- `readFindingLine` of internal/backend/orchestrator.go. What `bufio.Reader.ReadSlice('\n')` hands
-- out is the list of its results: a fragment up to and with a newline, a full buffer with none, the
-- last bytes before the end, or a read error. Beyond the list the stream is at its end.
pub mod Reference
use nuclei_security_center.Common.{
  ℕ, ◌+◌, Bool, true, false, List, [], ◌∷◌, ◌++◌, ltb, ◌==◌, length, reverse, if◌then◌else◌, Chars,
}

pub data Slice : Type 0 where
  delimited : Chars → Slice
  buffer_full : Chars → Slice
  at_eof : Chars → Slice
  broken : Slice

-- The results `(line, false, nil)`, `(nil, true, nil)`, `(nil, false, io.EOF)` and an error.
pub data Record : Type 0 where
  content : Chars → Record
  oversized : Record
  end_of_stream : Record
  read_error : Record

-- `line[:n-1]` if the last byte is `c`.
unfoldable pub drop_last : ℕ → Chars → Chars
drop_last c [] = []
drop_last c (d ∷ []) = if d == c then [] else d ∷ []
drop_last c (d ∷ e ∷ s) = d ∷ drop_last c (e ∷ s)

-- The newline, then one carriage return.
unfoldable pub trim_line : Chars → Chars
unfolding drop_last
trim_line line = drop_last 13 (drop_last 10 line)

-- The fragment is kept while the line stays within `lineLimit`.
unfoldable pub gather : ℕ → Chars → Bool → Chars → Chars × Bool
gather limit line true fragment = (line, true)
gather limit line false fragment =
    if ltb limit (length line + length fragment) then (line, true) else (line ++ fragment, false)

is_nil : Chars → Bool
is_nil [] = true
is_nil (c ∷ s) = false

-- What follows the loop's `continue`: the line is over, by a newline or (`eof`) by the end.
unfoldable pub conclude : ℕ → Bool → Chars × Bool → Record
conclude max_bytes eof (line, true) = oversized
conclude max_bytes true ([], false) = end_of_stream
conclude max_bytes eof (line, false) =
    let trimmed = trim_line line in
    if ltb max_bytes (length trimmed) then oversized else content trimmed

module _ (max_bytes : ℕ) where
  -- The loop, over the fragments that are left; it gives back those behind the record.
  unfoldable pub read_from : Chars → Bool → List Slice → Record × List Slice
  read_from line big [] = (conclude max_bytes true (gather (max_bytes + 2) line big []), [])
  read_from line big (delimited s ∷ rest) =
      (conclude max_bytes false (gather (max_bytes + 2) line big s), rest)
  read_from line big (at_eof s ∷ rest) =
      (conclude max_bytes true (gather (max_bytes + 2) line big s), [])
  read_from line big (broken ∷ rest) = (read_error, rest)
  read_from line big (buffer_full s ∷ rest) =
      let g = gather (max_bytes + 2) line big s in read_from g.0 g.1 rest

  unfoldable pub read_finding_line : List Slice → Record × List Slice
  unfolding read_from gather conclude trim_line
  read_finding_line = read_from [] false
