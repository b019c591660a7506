-- ===== src/Orchestrator/Records/Reference.antt =====
-- The record is the whole line, however the buffer cut it.
use mathlib.Core.List.{append_assoc}
use nuclei_security_center.Common.{
  ℕ, ◌+◌, ◌≤◌, ◌<◌, ◌≡◌, refl, sym, true, false, List, [], ◌∷◌, ◌++◌, arith, ltb, length,
  length-append, if◌then◌else◌, Bool-cases, inl, inr, Chars, map, ltb→lt,
}
use nuclei_security_center.Orchestrator.Records.{
  Slice, delimited, buffer_full, Record, content, oversized, drop_last, trim_line, gather, conclude,
  read_from, read_finding_line,
}

unfoldable pub flat : List Chars → Chars
flat [] = []
flat (s ∷ ss) = s ++ flat ss

-- A line that fits once its terminator is cut off, or `oversized`.
unfoldable pub reference : ℕ → Chars → Record
reference max_bytes line =
    if ltb max_bytes (length (trim_line line)) then oversized else content (trim_line line)

length-drop_last : (c : ℕ) (s : Chars) → length s ≤ length (drop_last c s) + 1
unfolding drop_last
length-drop_last c [] = omega arith
length-drop_last c (d ∷ []) = ground arith
length-drop_last c (d ∷ e ∷ s) = omega (arith, length-drop_last c (e ∷ s))

length-trim_line : (s : Chars) → length s ≤ length (trim_line s) + 2
unfolding trim_line
length-trim_line s = omega (arith, length-drop_last 10 s, length-drop_last 13 (drop_last 10 s))

reference-oversized : (m : ℕ) (s : Chars) → m + 2 < length s → reference m s ≡ oversized
unfolding reference
reference-oversized m s h = ground (arith, length-trim_line s)

module _ (m : ℕ) (s : Chars) (rest : List Slice) where
  -- An oversized line is drained to its newline.
  drained :
      (line : Chars) (ss : List Chars)
      → read_from m line true (map buffer_full ss ++ delimited s ∷ rest) ≡ (oversized, rest)
  unfolding read_from gather conclude
  drained line [] = refl
  drained line (f ∷ ss) = drained line ss

  -- The last fragment, behind a line that fits.
  concluded :
      (line : Chars) → conclude m false (gather (m + 2) line false s) ≡ reference m (line ++ s)
  unfolding conclude gather reference
  concluded line = elim (Bool-cases (ltb (m + 2) (length line + length s))) [
    | inl over ↦ rw over (
        sym (
          unfold reference in
          reference-oversized m (line ++ s) (omega (arith, length-append line s, ltb→lt _ _ over))))
    | inr fits ↦ rw fits (keeps (line ++ s))
  ]
    where
      keeps : (w : Chars) → conclude m false (w, false) ≡ reference m w
      keeps [] = refl
      keeps (c ∷ w) = refl

  gather-over :
      (line f : Chars)
      → ltb (m + 2) (length line + length f) ≡ true
      → gather (m + 2) line false f ≡ (line, true)
  unfolding gather
  gather-over line f h = rw h

  gather-fits :
      (line f : Chars)
      → ltb (m + 2) (length line + length f) ≡ false
      → gather (m + 2) line false f ≡ (line ++ f, false)
  unfolding gather
  gather-fits line f h = rw h

  read-full :
      (line f : Chars) (r : List Slice)
      → read_from m line false (buffer_full f ∷ r)
        ≡ read_from m (gather (m + 2) line false f).0 (gather (m + 2) line false f).1 r
  unfolding read_from
  read-full line f r = refl

  read-delimited :
      (line : Chars)
      → read_from m line false (delimited s ∷ rest)
        ≡ (conclude m false (gather (m + 2) line false s), rest)
  unfolding read_from
  read-delimited line = refl

  too_long :
      (line f r : Chars)
      → ltb (m + 2) (length line + length f) ≡ true
      → reference m (line ++ (f ++ r)) ≡ oversized
  too_long line f r h =
      reference-oversized m _
        (omega (arith, length-append line (f ++ r), length-append f r, ltb→lt _ _ h))

  gathered :
      (line : Chars) (ss : List Chars)
      → read_from m line false (map buffer_full ss ++ delimited s ∷ rest)
        ≡ (reference m (line ++ (flat ss ++ s)), rest)
  unfolding flat
  gathered line [] = rw (read-delimited line, concluded line) refl
  gathered line (f ∷ ss) = elim (Bool-cases (ltb (m + 2) (length line + length f))) [
    | inl over ↦
        rw
          (
            read-full line f,
            gather-over line f over,
            append_assoc f (flat ss) s,
            too_long line f (flat ss ++ s) over,
          )
          (drained line ss)
    | inr fits ↦
        rw
          (
            read-full line f,
            gather-fits line f fits,
            append_assoc f (flat ss) s,
            ← append_assoc line f (flat ss ++ s),
          )
          (gathered (line ++ f) ss)
  ]

  -- However the buffer cuts a line into fragments, the record is the line with its newline and one
  -- carriage return cut off if that is within the limit, and `oversized` if it is not; and the next
  -- record starts right behind the newline in both cases.
  pub read_finding_line-eq-reference :
      (ss : List Chars)
      → read_finding_line m (map buffer_full ss ++ delimited s ∷ rest)
        ≡ (reference m (flat ss ++ s), rest)
  unfolding read_finding_line
  read_finding_line-eq-reference ss = gathered [] ss
