-- ===== src/Orchestrator/Ingest/Ends.antt =====
-- The ingest loop ends: every read takes a slice or reports the end.
use nuclei_security_center.Common.{
  ℕ, zero, suc, ◌+◌, ◌≤◌, ◌<◌, ◌≡◌, ◌≢◌, inl, inr, refl, List, [], ◌∷◌, Option, none, some, Bool,
  false, length, Chars, arith, Option-cases,
}
use nuclei_security_center.Orchestrator.Records.{
  Slice, delimited, buffer_full, at_eof, broken, Record, content, oversized, end_of_stream,
  read_error, read_finding_line, read_from, conclude, gather,
}
use nuclei_security_center.Orchestrator.Ingest.{
  Progress, Emitted, written, record_error, fatal, Stop, drained, read_failed, finding_cap,
  byte_cap, emit_failed, out_of_fuel, after_emit, take_line, body, scan_loop, check_bytes,
  scan_finding_lines_with_details, max_finding_line_bytes, before,
}

read_from-shorter :
    (m : ℕ) (line : Chars) (big : Bool) (slices : List Slice)
    → length (read_from m line big slices).1 ≤ length slices
unfolding read_from
read_from-shorter m line big [] = omega arith
read_from-shorter m line big (delimited s ∷ rest) = omega arith
read_from-shorter m line big (at_eof s ∷ rest) = omega arith
read_from-shorter m line big (broken ∷ rest) = omega arith
read_from-shorter m line big (buffer_full s ∷ rest) =
    omega
      (arith, read_from-shorter m (gather (m + 2) line big s).0 (gather (m + 2) line big s).1 rest)

-- A read of a stream that is not over takes at least one slice.
read-shorter :
    (m : ℕ) (s : Slice) (slices : List Slice)
    → length (read_finding_line m (s ∷ slices)).1 < length (s ∷ slices)
unfolding read_finding_line read_from
read-shorter m (delimited s) rest = omega arith
read-shorter m (at_eof s) rest = omega arith
read-shorter m broken rest = omega arith
read-shorter m (buffer_full s) rest =
    omega
      (arith, read_from-shorter m (gather (m + 2) [] false s).0 (gather (m + 2) [] false s).1 rest)

module _ {ℓ κ} {S : Type ℓ} {F : Type κ} (parse : Chars → Option F)
    (emit : S → F → Chars → S × Emitted) (max_count : ℕ) where
  after_emit-goes_on : (p : Progress S) (e : S × Emitted) → (after_emit p e).1 ≢ some out_of_fuel
  unfolding after_emit
  after_emit-goes_on p (s, written) = ground arith
  after_emit-goes_on p (s, record_error stage) = ground arith
  after_emit-goes_on p (s, fatal) = ground arith

  take_line-goes_on :
      (p : Progress S) (line : Chars) (o : Option F)
      → (take_line parse emit max_count p line o).1 ≢ some out_of_fuel
  unfolding take_line
  take_line-goes_on p line none = ground arith
  take_line-goes_on p line (some f) = after_emit-goes_on p (emit p.store f line)

  body-goes_on :
      (p : Progress S) (r : Record) → (body parse emit max_count p r).1 ≢ some out_of_fuel
  unfolding body
  body-goes_on p end_of_stream = ground arith
  body-goes_on p read_error = ground arith
  body-goes_on p (content []) = ground arith
  body-goes_on p (content (c ∷ line)) = ground (
    arith,
    take_line-goes_on (record p { line_number = p.line_number + 1 }) (c ∷ line) (parse (c ∷ line)),
  )
  body-goes_on p oversized = ground arith

  loop-end :
      (fuel : ℕ) (p : Progress S) → scan_loop parse emit max_count (suc fuel) p [] ≡ (p, drained)
  unfolding scan_loop body read_finding_line read_from gather conclude
  loop-end fuel p = refl

  loop-ends :
      (fuel : ℕ) (p : Progress S) (slices : List Slice)
      → length slices < fuel
      → (scan_loop parse emit max_count fuel p slices).1 ≢ out_of_fuel
  unfolding scan_loop
  loop-ends zero p slices h = ground arith
  loop-ends (suc fuel) p [] h = ends
    where
      ends : (scan_loop parse emit max_count (suc fuel) p []).1 ≢ out_of_fuel
      ends = ground (arith, loop-end fuel p)
  loop-ends (suc fuel) p (s ∷ slices) h =
      let r = read_finding_line max_finding_line_bytes (s ∷ slices) in
      elim (Option-cases (body parse emit max_count p r.0).1) [
        | inl e ↦
            rw (scan_loop, e)
              (loop-ends fuel _ r.1 (omega (arith, read-shorter max_finding_line_bytes s slices)))
        | inr (stop, e) ↦ rw (scan_loop, e) (ground (arith, body-goes_on p r.0))
      ]

  check_bytes-keeps :
      (max_bytes : ℕ) (slices : List Slice) (stop : Stop)
      → stop ≢ out_of_fuel
      → check_bytes max_bytes slices stop ≢ out_of_fuel
  unfolding check_bytes
  check_bytes-keeps max_bytes slices drained h = ground arith
  check_bytes-keeps max_bytes slices read_failed h = h
  check_bytes-keeps max_bytes slices finding_cap h = h
  check_bytes-keeps max_bytes slices byte_cap h = h
  check_bytes-keeps max_bytes slices emit_failed h = h
  check_bytes-keeps max_bytes slices out_of_fuel h = h

  -- The fuel is enough: on every stream the loop ends with one of the code's own outcomes.
  pub scan_finding_lines-ends :
      (max_bytes : ℕ) (s : S) (slices : List Slice)
      → (scan_finding_lines_with_details parse emit max_count max_bytes s slices).1 ≢ out_of_fuel
  unfolding scan_finding_lines_with_details
  scan_finding_lines-ends max_bytes s slices =
      check_bytes-keeps max_bytes slices
        (scan_loop parse emit max_count (suc (length slices)) (before s) slices).1
        (loop-ends (suc (length slices)) (before s) slices (omega arith))
