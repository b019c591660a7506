-- ===== src/Orchestrator/Ingest.antt =====
-- `scanFindingLinesWithDetails` of internal/backend/orchestrator.go: the loop that reads one record
-- after another from a node's results stream under a byte cap and a count cap. The parser
-- (`json.Unmarshal`) and `emit`, which writes a finding to the store, are parameters. The slices are
-- those of the `io.LimitedReader`, so that what it has left at the end of the stream is its bound
-- less the bytes of all slices.
pub mod Bounds
pub mod Ends
use nuclei_security_center.Common.{
  ℕ, zero, suc, ◌+◌, ◌-◌, String, List, [], ◌∷◌, ◌++◌, Option, none, some, Bool, true, false, ltb,
  leb, ◌&&◌, length, if◌then◌else◌, Chars,
}
use nuclei_security_center.Orchestrator.Records.{
  Slice, delimited, buffer_full, at_eof, broken, Record, content, oversized, end_of_stream,
  read_error, read_finding_line,
}

-- The reason of a skipped record; `record_failed` carries the stage of a `FindingRecordError`.
pub data Reason : Type 0 where
  oversized_record : Reason
  parse_failed : Reason
  record_failed : String → Reason

pub data Emitted : Type 0 where
  written : Emitted
  record_error : String → Emitted
  fatal : Emitted

-- Why the loop ends. `out_of_fuel` is none of the code's.
pub data Stop : Type 0 where
  drained : Stop
  read_failed : Stop
  finding_cap : Stop
  byte_cap : Stop
  emit_failed : Stop
  out_of_fuel : Stop

-- The loop's variables, and the state that `emit` changes.
pub record Progress {ℓ} (S : Type ℓ) : Type ℓ where
  pub store : S
  pub ingested : ℕ
  pub skipped : ℕ
  pub line_number : ℕ
  pub details : List (ℕ × Reason)

abbrev pub max_finding_skip_details : ℕ
max_finding_skip_details = 8

abbrev pub max_finding_line_bytes : ℕ
max_finding_line_bytes = 8388608

unfoldable pub append_finding_skip_detail : List (ℕ × Reason) → ℕ → Reason → List (ℕ × Reason)
append_finding_skip_detail details line_number reason =
    if leb max_finding_skip_details (length details)
    then details
    else (details ++ (line_number, reason) ∷ [])

-- The bytes that the limited reader handed out.
unfoldable pub bytes : List Slice → ℕ
bytes [] = 0
bytes (delimited s ∷ rest) = length s + bytes rest
bytes (buffer_full s ∷ rest) = length s + bytes rest
bytes (at_eof s ∷ rest) = length s + bytes rest
bytes (broken ∷ rest) = bytes rest

-- `limited.N <= 0` after the loop has read to the end.
unfoldable pub check_bytes : ℕ → List Slice → Stop → Stop
unfolding bytes
check_bytes max_bytes slices drained =
    if leb (max_bytes + 1) (bytes slices) then byte_cap else drained
check_bytes max_bytes slices read_failed = read_failed
check_bytes max_bytes slices finding_cap = finding_cap
check_bytes max_bytes slices byte_cap = byte_cap
check_bytes max_bytes slices emit_failed = emit_failed
check_bytes max_bytes slices out_of_fuel = out_of_fuel

module _ {ℓ} {S : Type ℓ} where
  abbrev pub before : S → Progress S
  before s = record { store = s; ingested = 0; skipped = 0; line_number = 0; details = [] }

  unfoldable pub skip : Progress S → Reason → Progress S
  unfolding append_finding_skip_detail
  skip p reason = record p {
    skipped = p.skipped + 1;
    details = append_finding_skip_detail p.details p.line_number reason;
  }

  -- What the loop does with the result of `emit`.
  unfoldable pub after_emit : Progress S → S × Emitted → Progress S × Option Stop
  unfolding skip
  after_emit p (s, written) = (record p { store = s; ingested = p.ingested + 1 }, none)
  after_emit p (s, record_error stage) = (skip (record p { store = s }) (record_failed stage), none)
  after_emit p (s, fatal) = (record p { store = s }, some emit_failed)

  module _ {κ} {F : Type κ} (parse : Chars → Option F) (emit : S → F → Chars → S × Emitted)
      (max_count : ℕ) where
    unfoldable pub take_line : Progress S → Chars → Option F → Progress S × Option Stop
    unfolding skip after_emit
    take_line p line none = (skip p parse_failed, none)
    take_line p line (some f) = after_emit p (emit p.store f line)

    -- The loop's body behind the read; `none` goes on with the next record.
    unfoldable pub body : Progress S → Record → Progress S × Option Stop
    unfolding skip take_line
    body p end_of_stream = (p, some drained)
    body p read_error = (p, some read_failed)
    body p (content []) = (record p { line_number = p.line_number + 1 }, none)
    body p (content (c ∷ line)) =
        let q = record p { line_number = p.line_number + 1 } in
        if leb max_count p.ingested
        then (q, some finding_cap)
        else take_line q (c ∷ line) (parse (c ∷ line))
    body p oversized =
        let q = record p { line_number = p.line_number + 1 } in
        if leb max_count p.ingested then (q, some finding_cap) else (skip q oversized_record, none)

    unfoldable pub scan_loop : ℕ → Progress S → List Slice → Progress S × Stop
    unfolding body read_finding_line
    scan_loop zero p slices = (p, out_of_fuel)
    scan_loop (suc fuel) p slices =
        let r = read_finding_line max_finding_line_bytes slices in
        let q = body p r.0 in elim q.1 [ none ↦ scan_loop fuel q.0 r.1 | some stop ↦ (q.0, stop) ]

    unfoldable pub scan_finding_lines_with_details : ℕ → S → List Slice → Progress S × Stop
    unfolding scan_loop check_bytes
    scan_finding_lines_with_details max_bytes s slices =
        let r = scan_loop (suc (length slices)) (before s) slices in
        (r.0, check_bytes max_bytes slices r.1)
