-- ===== src/Trace.antt =====
-- Which endpoints a scan has evidence for, internal/scanner/coverage.go: the reduction of Nuclei's
-- request trace. The reader's results are those of `ReadSlice`; decoding a record as JSON and the map
-- from template paths to ids, with the cleaning of the path, are parameters.
pub mod Endpoint
pub mod Ported
pub mod Lines
pub mod Reports
pub mod Evidence
use nuclei_security_center.Common.{
  ℕ, suc, ◌+◌, ◌*◌, Bool, true, false, not, ◌&&◌, ◌||◌, Option, none, some, List, [], ◌∷◌, ◌++◌,
  if◌then◌else◌, Chars, chars_eq, codes, length, leb, ltb, ◌==◌,
}
use nuclei_security_center.Login.Clients.{trim_space}
use nuclei_security_center.Orchestrator.Records.{Slice, delimited, buffer_full, at_eof, broken}
use nuclei_security_center.Trace.Endpoint.{is_blank, NetLibrary, endpoint_key}

abbrev pub max_coverage_trace_line : ℕ
max_coverage_trace_line = 1024 * 1024

abbrev pub max_coverage_pairs : ℕ
max_coverage_pairs = 250000

pub record TraceEvent : Type 0 where
  pub template : Chars
  pub type : Chars
  pub input : Chars
  pub address : Chars
  pub error : Option Chars

-- types.EndpointCoverage, on texts.
pub record Pair : Type 0 where
  pub template_id : Chars
  pub endpoint : Chars

abbrev pub same_pair : Pair → Pair → Bool
same_pair p q = chars_eq p.template_id q.template_id && chars_eq p.endpoint q.endpoint

abbrev pub has_pair : Pair → List Pair → Bool
has_pair p [] = false
has_pair p (q ∷ qs) = same_pair p q || has_pair p qs

-- The variables that the closure changes; `seen` is `none` from the overflow on.
pub record Reduced : Type 0 where
  pub seen : Option (List Pair)
  pub non_empty_records : ℕ
  pub decoded_records : ℕ
  pub status_records : ℕ
  pub malformed_records : ℕ
  pub unmapped_successes : ℕ

abbrev pub nothing_read : Reduced
nothing_read = record {
  seen = some [];
  non_empty_records = 0;
  decoded_records = 0;
  status_records = 0;
  malformed_records = 0;
  unmapped_successes = 0;
}

-- Where the closure returns, for one record.
pub data Outcome : Type 0 where
  blank malformed no_status other_status unmapped : Outcome
  evidence : Pair → Outcome

module _ (net : NetLibrary) (decode : Chars → Option TraceEvent)
    (template_id_by_path : Chars → Option Chars) where
  unfoldable pub endpoint_of : TraceEvent → Chars
  unfolding endpoint_key
  endpoint_of e =
      let k = endpoint_key net e.address e.type in
      if is_blank k then endpoint_key net e.input e.type else k

  abbrev pub success : Option Chars → Chars → Outcome
  success none endpoint = unmapped
  success (some id) endpoint =
      if is_blank endpoint
      then unmapped
      else evidence (record { template_id = id; endpoint = endpoint })

  abbrev pub status_outcome : TraceEvent → Option Chars → Outcome
  status_outcome e none = no_status
  status_outcome e (some error) =
      if chars_eq error (codes "none")
      then success (template_id_by_path e.template) (endpoint_of e)
      else other_status

  abbrev pub decoded : Option TraceEvent → Outcome
  decoded none = malformed
  decoded (some e) = status_outcome e e.error

  unfoldable pub outcome : Chars → Bool → Outcome
  unfolding trim_space endpoint_of
  outcome raw true = malformed
  outcome raw false =
      let line = trim_space raw in if is_blank line then blank else decoded (decode line)

-- The pair is added; one pair too many drops them all.
unfoldable pub add_pair : Pair → Option (List Pair) → Option (List Pair)
add_pair p none = none
add_pair p (some pairs) =
    if has_pair p pairs
    then some pairs
    else if ltb max_coverage_pairs (suc (length pairs))
    then none
    else some (p ∷ pairs)

unfoldable pub count_outcome : Outcome → Reduced → Reduced
unfolding add_pair
count_outcome blank r = r
count_outcome malformed r = record r {
  non_empty_records = suc r.non_empty_records;
  malformed_records = suc r.malformed_records;
}
count_outcome no_status r = record r {
  non_empty_records = suc r.non_empty_records;
  decoded_records = suc r.decoded_records;
}
count_outcome other_status r = record r {
  non_empty_records = suc r.non_empty_records;
  decoded_records = suc r.decoded_records;
  status_records = suc r.status_records;
}
count_outcome unmapped r = record r {
  non_empty_records = suc r.non_empty_records;
  decoded_records = suc r.decoded_records;
  status_records = suc r.status_records;
  unmapped_successes = suc r.unmapped_successes;
}
count_outcome (evidence p) r = record r {
  non_empty_records = suc r.non_empty_records;
  decoded_records = suc r.decoded_records;
  status_records = suc r.status_records;
  seen = add_pair p r.seen;
}

-- A line of the trace with whether it is too large.
unfoldable pub keep_fragment : Chars × Bool → Chars → Chars × Bool
keep_fragment (line, true) s = (line, true)
keep_fragment (line, false) s =
    if leb (length line + length s) max_coverage_trace_line
    then (line ++ s, false)
    else (line, true)

abbrev pub cleared : Chars × Bool → Chars × Bool
cleared (line, true) = ([], true)
cleared (line, false) = (line, false)

-- The records that the loop hands to the closure, and whether the stream failed. An incomplete last
-- line is a record.
unfoldable pub trace_lines : Chars × Bool → List Slice → List (Chars × Bool) × Bool
unfolding keep_fragment
trace_lines p [] = (if is_blank p.0 && not p.1 then [] else p ∷ [], false)
trace_lines p (delimited s ∷ rest) =
    let more = trace_lines ([], false) rest in (keep_fragment p s ∷ more.0, more.1)
trace_lines p (buffer_full s ∷ rest) = trace_lines (cleared (keep_fragment p s)) rest
trace_lines p (at_eof s ∷ rest) =
    (if is_blank s && (is_blank p.0 && not p.1) then [] else keep_fragment p s ∷ [], false)
trace_lines p (broken ∷ rest) = ([], true)

-- The warnings, by what they say.
pub data Warning : Type 0 where
  read_failed too_many_pairs no_decodable_records no_request_status : Warning
  skipped_malformed skipped_unmapped : ℕ → Warning

pub record CoverageResult : Type 0 where
  pub endpoints : Option (List Pair)
  pub warnings : List Warning

abbrev pub unavailable : Warning → CoverageResult
unavailable w = record { endpoints = none; warnings = w ∷ [] }

abbrev note_if : ℕ → Warning → List Warning
note_if n w = if ltb 0 n then w ∷ [] else []

-- Go's `<` on strings.
abbrev pub less_text : Chars → Chars → Bool
less_text [] [] = false
less_text [] (d ∷ t) = true
less_text (c ∷ s) [] = false
less_text (c ∷ s) (d ∷ t) = if c == d then less_text s t else ltb c d

-- The order by template id, then by endpoint.
unfoldable pub less_pair : Pair → Pair → Bool
less_pair p q =
    if not (chars_eq p.template_id q.template_id)
    then less_text p.template_id q.template_id
    else less_text p.endpoint q.endpoint

module _ (less : Pair → Pair → Bool) where
  unfoldable pub insert_pair : Pair → List Pair → List Pair
  insert_pair p [] = p ∷ []
  insert_pair p (q ∷ qs) = if less p q then p ∷ q ∷ qs else q ∷ insert_pair p qs

  -- `sort.Slice`
  unfoldable pub sort_pairs : List Pair → List Pair
  unfolding insert_pair
  sort_pairs [] = []
  sort_pairs (p ∷ ps) = insert_pair p (sort_pairs ps)

-- What is reported after the loop.
unfoldable pub report : Bool → Reduced → CoverageResult
unfolding sort_pairs less_pair
report true r = unavailable read_failed
report false r = elim r.seen [
  | none ↦ unavailable too_many_pairs
  | some pairs ↦
      if ltb 0 r.non_empty_records && (r.decoded_records == 0)
      then unavailable no_decodable_records
      else if ltb 0 r.decoded_records && (r.status_records == 0)
      then unavailable no_request_status
      else record {
        endpoints = some (sort_pairs less_pair pairs);
        warnings =
            note_if r.malformed_records (skipped_malformed r.malformed_records)
            ++ note_if r.unmapped_successes (skipped_unmapped r.unmapped_successes);
      }
]

module _ (net : NetLibrary) (decode : Chars → Option TraceEvent)
    (template_id_by_path : Chars → Option Chars) where
  unfoldable pub process : List (Chars × Bool) → Reduced → Reduced
  unfolding count_outcome outcome
  process [] r = r
  process ((raw, big) ∷ lines) r =
      process lines (count_outcome (outcome net decode template_id_by_path raw big) r)

  unfoldable pub covered_endpoints_from_trace : List Slice → CoverageResult
  unfolding process trace_lines report
  covered_endpoints_from_trace slices =
      let lines = trace_lines ([], false) slices in report lines.1 (process lines.0 nothing_read)
