-- ===== src/Orchestrator/Ingest/Bounds.antt =====
-- The caps of the ingest loop, and that it ends.
use nuclei_security_center.Common.{
  ℕ, zero, suc, ◌+◌, ◌≤◌, ◌<◌, ◌≡◌, inl, inr, List, [], ◌∷◌, Option, none, some, leb, length,
  length-append, if◌then◌else◌, Chars, arith, Option-cases,
}
use nuclei_security_center.Orchestrator.Records.{
  Slice, Record, content, oversized, end_of_stream, read_error, read_finding_line,
}
use nuclei_security_center.Orchestrator.Ingest.{
  Progress, Emitted, written, record_error, fatal, skip, append_finding_skip_detail, after_emit,
  take_line, body, scan_loop, scan_finding_lines_with_details, max_finding_skip_details,
  max_finding_line_bytes, Reason, oversized_record, before,
}

module _ {ℓ} {S : Type ℓ} where
  pub record IsBounded (max_count : ℕ) (p : Progress S) : Type 0 where
    pub findings : p.ingested ≤ max_count
    pub samples :
        length p.details
        ≡ (if leb max_finding_skip_details p.skipped then max_finding_skip_details else p.skipped)
    pub counted : p.ingested + p.skipped ≤ p.line_number

  module _ (max_count : ℕ) where
    skip-IsBounded :
        (p : Progress S) (reason : Reason)
        → p.ingested ≤ max_count
        → length p.details
          ≡ (if leb max_finding_skip_details p.skipped then max_finding_skip_details else p.skipped)
        → p.ingested + p.skipped < p.line_number
        → IsBounded max_count (skip p reason)
    unfolding skip append_finding_skip_detail
    skip-IsBounded p reason h i j =
        ground (arith, length-append p.details ((p.line_number, reason) ∷ []))

    after_emit-IsBounded :
        (p : Progress S) (e : S × Emitted)
        → p.ingested < max_count
        → length p.details
          ≡ (if leb max_finding_skip_details p.skipped then max_finding_skip_details else p.skipped)
        → p.ingested + p.skipped < p.line_number
        → IsBounded max_count (after_emit p e).0
    unfolding after_emit
    after_emit-IsBounded p (s, written) h i j = ground arith
    after_emit-IsBounded p (s, record_error stage) h i j =
        skip-IsBounded (record p { store = s }) _ (omega arith) i j
    after_emit-IsBounded p (s, fatal) h i j = ground arith

  module _ {κ} {F : Type κ} (parse : Chars → Option F) (emit : S → F → Chars → S × Emitted)
      (max_count : ℕ) where
    take_line-IsBounded :
        (p : Progress S) (line : Chars) (o : Option F)
        → p.ingested < max_count
        → length p.details
          ≡ (if leb max_finding_skip_details p.skipped then max_finding_skip_details else p.skipped)
        → p.ingested + p.skipped < p.line_number
        → IsBounded max_count (take_line parse emit max_count p line o).0
    unfolding take_line
    take_line-IsBounded p line none h i j = skip-IsBounded max_count p _ (omega arith) i j
    take_line-IsBounded p line (some f) h i j =
        after_emit-IsBounded max_count p (emit p.store f line) h i j

    body-IsBounded :
        (p : Progress S) (r : Record)
        → IsBounded max_count p
        → IsBounded max_count (body parse emit max_count p r).0
    unfolding body
    body-IsBounded p end_of_stream h = h
    body-IsBounded p read_error h = h
    body-IsBounded p (content []) h = ground arith
    body-IsBounded p (content (c ∷ line)) h = ground (
      arith,
      take_line-IsBounded (record p { line_number = p.line_number + 1 }) (c ∷ line)
          (parse (c ∷ line)),
    )
    body-IsBounded p oversized h = ground (
      arith,
      skip-IsBounded max_count (record p { line_number = p.line_number + 1 }) oversized_record,
    )

    loop-IsBounded :
        (fuel : ℕ) (p : Progress S) (slices : List Slice)
        → IsBounded max_count p
        → IsBounded max_count (scan_loop parse emit max_count fuel p slices).0
    unfolding scan_loop
    loop-IsBounded zero p slices h = h
    loop-IsBounded (suc fuel) p slices h =
        let r = read_finding_line max_finding_line_bytes slices in
        elim (Option-cases (body parse emit max_count p r.0).1) [
          | inl e ↦ rw (scan_loop, e) (loop-IsBounded fuel _ r.1 (body-IsBounded p r.0 h))
          | inr (stop, e) ↦ rw (scan_loop, e) (body-IsBounded p r.0 h)
        ]

    -- Whatever the stream holds, and whatever the parser and the store answer: at most `max_count`
    -- findings are ingested, there is one diagnostic sample for each skipped record up to eight and
    -- none beyond, and the ingested and the skipped records together are at most the lines read.
    pub scan_finding_lines-IsBounded :
        (max_bytes : ℕ) (s : S) (slices : List Slice)
        → IsBounded max_count
            (scan_finding_lines_with_details parse emit max_count max_bytes s slices).0
    unfolding scan_finding_lines_with_details
    scan_finding_lines-IsBounded max_bytes s slices =
        loop-IsBounded (suc (length slices)) (before s) slices (ground arith)
