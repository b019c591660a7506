-- ===== src/Examples/Orchestrator.antt =====
-- Runs of the orchestrator's loops.
use nuclei_security_center.Common.{
  ℕ, ◌+◌, ◌≤◌, ◌≡◌, ◌≢◌, true, false, some, none, Option, List, [], ◌∷◌, ltb, if◌then◌else◌, Chars,
}
use nuclei_security_center.Common.Int.{pos}
use nuclei_security_center.Orchestrator.Records.{
  delimited, buffer_full, at_eof, Slice, read_finding_line,
}
use nuclei_security_center.Orchestrator.Records.Reference.{
  reference, flat, read_finding_line-eq-reference,
}
use nuclei_security_center.Orchestrator.Ingest.{
  scan_finding_lines_with_details, Emitted, written, out_of_fuel,
}
use nuclei_security_center.Orchestrator.Ingest.Bounds.{IsBounded, scan_finding_lines-IsBounded}
use nuclei_security_center.Orchestrator.Ingest.Ends.{scan_finding_lines-ends}
use nuclei_security_center.Orchestrator.Dispatch.{
  Options, node_runtime_budget, node_timeouts, at_capacity, Started, complete,
}
use nuclei_security_center.Orchestrator.Dispatch.Waits.{sum, node_runtime_budget-eq-sum}
use nuclei_security_center.Nodes.{ScannerNode, selected}
use nuclei_security_center.Admission.Backend.{active}
use nuclei_security_center.Orchestrator.Submit.{submit, runs_on, active-submit}
use nuclei_security_center.Orchestrator.Run.{Answers, ok, ScanStatus, run}
use nuclei_security_center.Orchestrator.Run.Ends.{ends, expected, lands, verdict, ends-run}

-- A line of 5 bytes and its end, cut in two by the buffer, within a limit of 8.
read_finding_line-eq-reference_example :
    read_finding_line 8 (buffer_full (65 ∷ 66 ∷ 67 ∷ []) ∷ delimited (68 ∷ 69 ∷ 13 ∷ 10 ∷ []) ∷ [])
    ≡ (reference 8 (65 ∷ 66 ∷ 67 ∷ 68 ∷ 69 ∷ 13 ∷ 10 ∷ []), [])
unfolding flat
read_finding_line-eq-reference_example =
    read_finding_line-eq-reference 8 (68 ∷ 69 ∷ 13 ∷ 10 ∷ []) [] ((65 ∷ 66 ∷ 67 ∷ []) ∷ [])

-- A parser that takes every line but those that start with a 0, and a store that counts.
abbrev parse : Chars → Option ℕ
parse [] = none
parse (c ∷ line) = if ltb c 1 then none else some c

abbrev emit : ℕ → ℕ → Chars → ℕ × Emitted
emit n f line = (n + 1, written)

abbrev stream : List Slice
stream =
    delimited (7 ∷ 10 ∷ [])
    ∷ delimited (0 ∷ 10 ∷ [])
    ∷ delimited (10 ∷ [])
    ∷ delimited (8 ∷ 10 ∷ [])
    ∷ at_eof (9 ∷ [])
    ∷ []

scan_finding_lines-IsBounded_example :
    IsBounded 2 (scan_finding_lines_with_details parse emit 2 100 0 stream).0
scan_finding_lines-IsBounded_example = scan_finding_lines-IsBounded parse emit 2 100 0 stream

scan_finding_lines-ends_example :
    (scan_finding_lines_with_details parse emit 2 100 0 stream).1 ≢ out_of_fuel
scan_finding_lines-ends_example = scan_finding_lines-ends parse emit 2 100 0 stream

-- No discovery, and the default timeout.
abbrev options : Options
options = record {
  timeout_sec = pos 0;
  discovery = some (record { enabled = true; timeout_sec = pos 60 });
}

node_runtime_budget-eq-sum_example :
    (node_runtime_budget options ≡ sum (node_timeouts options)) × (1 ≤ node_runtime_budget options)
node_runtime_budget-eq-sum_example = node_runtime_budget-eq-sum options

abbrev full_node : List Started
full_node = at_capacity false ∷ at_capacity false ∷ at_capacity true ∷ []

abbrev done_status : ScanStatus
done_status = record {
  state = complete;
  nuclei_version = "3.11.0";
  templates_commit = "c";
  discovered_targets = [];
  covered_endpoints = none;
  coverage_warning = "";
  error = "";
}

-- A scan that completes, whose terminal write succeeds at its second try.
abbrev answers : Answers
answers = record {
  client = ok tt;
  bundle = ok tt;
  start_scan = ok "n";
  marked_running = ok true;
  poll = ok done_status;
  ingested = ok tt;
  writes = (false, false) ∷ (true, false) ∷ [];
}

ends-run_example :
    ends (run 1 9 "node" "c" answers) ≡ expected (lands answers) (verdict answers (ok tt))
ends-run_example = ends-run 1 9 "node" "c" answers

abbrev inner : ScannerNode
inner = record { id = "1"; name = "inner"; cidrs = []; max_concurrent_scans = pos 2 }

active-submit_example :
    active (submit (some "s") (λ n. none) (("1", 1) ∷ []) (selected inner)).0 "1" ≡ (
      if runs_on (submit (some "s") (λ n. none) (("1", 1) ∷ []) (selected inner)).1 "1"
      then active (("1", 1) ∷ []) "1" + 1
      else active (("1", 1) ∷ []) "1")
active-submit_example = active-submit (some "s") (λ n. none) (("1", 1) ∷ []) (selected inner) "1"
