-- ===== src/Stats.antt =====
-- `statsWriter`, internal/scanner/stats.go: the lines of a scanner's diagnostics, of which at most the
-- last `max_captured_output` bytes are kept. What `handleLine` does with a line is the list of the lines
-- it is given; texts are bytes.
pub mod Lines
use nuclei_security_center.Common.{
  ℕ, ◌+◌, ◌-◌, Bool, true, false, List, [], ◌∷◌, ◌++◌, if◌then◌else◌, Chars, length, drop, leb,
  ◌==◌,
}

-- The buffer and the lines that were handled so far.
pub record StatsWriter : Type 0 where
  pub buf : Chars
  pub handled : List Chars

module _ (max_captured_output : ℕ) where
  unfoldable pub append_pending_line : Chars → Chars → Chars
  append_pending_line buf p =
      if leb max_captured_output (length p)
      then drop (length p - max_captured_output) p
      else drop (length buf + length p - max_captured_output) buf ++ p

  abbrev pub is_nil : Chars → Bool
  is_nil [] = true
  is_nil (c ∷ s) = false

  -- The loop of `Write`, where `line` is what it has found before the next newline.
  unfoldable pub write_from : StatsWriter → Chars → Chars → StatsWriter
  unfolding append_pending_line
  write_from w line [] =
      if is_nil line then w else record w { buf = append_pending_line w.buf line }
  write_from w line (c ∷ p) =
      let ended =
        write_from
          (record { buf = []; handled = w.handled ++ (append_pending_line w.buf line ∷ []) }) []
          p in
      let going_on = write_from w (line ++ (c ∷ [])) p in if c == 10 then ended else going_on

  unfoldable pub write : StatsWriter → Chars → StatsWriter
  unfolding write_from
  write w p = write_from w [] p

  unfoldable pub flush : StatsWriter → StatsWriter
  flush w = if is_nil w.buf then w else record { buf = []; handled = w.handled ++ (w.buf ∷ []) }
