-- ===== src/Trace/Lines.antt =====
-- The lines of a trace as the reader's slices spell them, and what the bounded reader makes of them.
use nuclei_security_center.Common.{
  ◌+◌, ◌<◌, ◌≤◌, ◌≡◌, ◌↔◌, refl, inl, inr, Bool, true, false, not, ◌&&◌, List, [], ◌∷◌, ◌++◌, Chars,
  length, length-append, leb, any, Any, arith, Bool-cases, if◌then◌else◌,
}
use nuclei_security_center.Orchestrator.Records.{Slice, delimited, buffer_full, at_eof, broken}
use nuclei_security_center.Trace.Endpoint.{is_blank}
use nuclei_security_center.Trace.{max_coverage_trace_line, keep_fragment, cleared, trace_lines}

-- The slices of each line, joined without any limit.
abbrev pub whole_lines : Chars → List Slice → List Chars
whole_lines l [] = l ∷ []
whole_lines l (delimited s ∷ rest) = (l ++ s) ∷ whole_lines [] rest
whole_lines l (buffer_full s ∷ rest) = whole_lines (l ++ s) rest
whole_lines l (at_eof s ∷ rest) = (l ++ s) ∷ []
whole_lines l (broken ∷ rest) = []

-- The reader holds the line so far, or knows that it is over the limit.
abbrev Carries : Chars × Bool → Chars → Type 0
Carries (l, true) w = max_coverage_trace_line < length w
Carries (l, false) w = (l ≡ w) × (length w ≤ max_coverage_trace_line)

keep-Carries : (p : Chars × Bool) (w s : Chars) → Carries p w → Carries (keep_fragment p s) (w ++ s)
unfolding keep_fragment
keep-Carries (l, true) w s h = omega (arith, h, length-append w s)
keep-Carries (l, false) w s (e, h) =
    elim (Bool-cases (leb (length l + length s) max_coverage_trace_line)) [
      | inl p ↦ rw (keep_fragment, p) (rw e refl, ground (arith, length-append w s))
      | inr p ↦ rw (keep_fragment, p) (ground (arith, length-append w s))
    ]

cleared-Carries : (p : Chars × Bool) (w : Chars) → Carries p w → Carries (cleared p) w
cleared-Carries (l, true) w h = h
cleared-Carries (l, false) w h = h

module _ (f : Chars × Bool → Bool) (Q : Chars → Type 0) (big : (w : Chars) → f (w, true) ≡ false)
    (blank : f ([], false) ≡ false) (small : (w : Chars) → (f (w, false) ≡ true) ↔ Q w) where
  -- The line is not too large and has the property.
  abbrev pub Fits : Chars → Type 0
  Fits w = (length w ≤ max_coverage_trace_line) × Q w

  one_line : (p : Chars × Bool) (w : Chars) → Carries p w → (f p ≡ true) ↔ Fits w
  one_line (l, true) w h = ground (arith, big l)
  one_line (l, false) w (e, h) = rw e (ground (arith, small w))

  -- A last line that is left out has nothing to say.
  last_line :
      (left_out : Bool) (p : Chars × Bool) (w : Chars)
      → (left_out ≡ true → f p ≡ false)
      → Carries p w
      → (any f (if left_out then [] else p ∷ []) ≡ true) ↔ Any Fits (w ∷ [])
  last_line true p w silent h = ground (arith, silent refl, one_line p w h)
  last_line false p w silent h = ground (arith, one_line p w h)

  nothing_held : (p : Chars × Bool) → (is_blank p.0 && not p.1) ≡ true → f p ≡ false
  nothing_held ([], false) h = blank
  nothing_held ([], true) h = ground arith
  nothing_held (c ∷ l, b) h = ground arith

  nothing_kept :
      (s : Chars) (p : Chars × Bool)
      → (is_blank s && (is_blank p.0 && not p.1)) ≡ true
      → f (keep_fragment p s) ≡ false
  unfolding keep_fragment
  nothing_kept [] ([], false) h = blank
  nothing_kept [] ([], true) h = ground arith
  nothing_kept [] (c ∷ l, b) h = ground arith
  nothing_kept (c ∷ s) p h = ground arith

  -- Some record of the reader passes exactly if some whole line fits.
  pub lines_iff :
      (slices : List Slice) (p : Chars × Bool) (w : Chars)
      → Carries p w
      → (any f (trace_lines p slices).0 ≡ true) ↔ Any Fits (whole_lines w slices)
  unfolding trace_lines
  lines_iff [] p w h = last_line _ p w (nothing_held p) h
  lines_iff (delimited s ∷ rest) p w h = ground (
    arith,
    one_line (keep_fragment p s) (w ++ s) (keep-Carries p w s h),
    lines_iff rest ([], false) [] (refl, omega arith),
  )
  lines_iff (buffer_full s ∷ rest) p w h =
      lines_iff rest (cleared (keep_fragment p s)) (w ++ s)
        (cleared-Carries (keep_fragment p s) (w ++ s) (keep-Carries p w s h))
  lines_iff (at_eof s ∷ rest) p w h =
      last_line _ (keep_fragment p s) (w ++ s) (nothing_kept s p) (keep-Carries p w s h)
  lines_iff (broken ∷ rest) p w h = (λ e. ground arith, λ e. elim e [ ])
