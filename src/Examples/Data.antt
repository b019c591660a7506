-- ===== src/Examples/Data.antt =====
-- The rows that the examples share.
use nuclei_security_center.Common.{ℕ, String, none, some, [], ◌∷◌}
use nuclei_security_center.Store.Rows.{
  ScanState, running, complete, CoverageOrigin, EndpointCoverage, ScanRow, Observed, LifecycleRow,
  no_disposition, Occurrence, Db,
}

abbrev pub pair : EndpointCoverage
pair = record { template_id = "cve-1"; endpoint = "10.0.0.1:443" }

-- The scan `id` of the target "t", created at the time `id`.
abbrev pub scan : ℕ → ScanState → ScanRow
scan id state = record {
  id = id;
  state = state;
  created_at = id;
  started_at = none;
  finished_at = none;
  error = none;
  target_id = some "t";
  node_id = none;
  node_scan_id = none;
  nuclei_version = none;
  templates_commit = none;
  discovered_targets = none;
  covered_endpoints = some (pair ∷ []);
  coverage_warning = none;
  coverage_origin = CoverageOrigin.node;
  skipped_finding_count = 0;
  raw_object_key = none;
  log_object_key = none;
  notify_min_severity = none;
}

abbrev pub seen : Observed
seen = record {
  name = "a finding";
  severity = "high";
  host = "10.0.0.1";
  matched_at = "10.0.0.1:443";
  endpoint_key = "10.0.0.1:443";
  type_name = "http";
  cve = [];
  tags = [];
  matcher_name = "";
  extractor_name = "";
  extracted_results = [];
}

-- A finding that the scan 1 saw first, last and as its covering scan.
abbrev pub finding : LifecycleRow
finding = record {
  id = 7;
  dedup_key = "k";
  result_discriminator = "";
  template_id = "cve-1";
  observed = seen;
  first_seen_scan = some 1;
  first_seen_at = 1;
  last_seen_scan = some 1;
  last_seen_at = 1;
  latest_occurrence_id = some 11;
  last_covering_scan = some 1;
  times_mitigated = 0;
  disposition = no_disposition;
  accept_expires_at = none;
  recast_severity = none;
}

abbrev pub occurrence : Occurrence
occurrence = record {
  id = 11;
  scan_id = 1;
  target_id = some "t";
  finding_id = some 7;
  dedup_key = "k";
  created_at = 1;
}

-- A complete scan, then one that is running.
abbrev pub two_scans : Db
two_scans = record {
  scans = scan 1 complete ∷ scan 2 running ∷ [];
  findings = occurrence ∷ [];
  lifecycle = finding ∷ [];
  outbox = [];
}

abbrev pub with_state : ScanState → Db
with_state state = record two_scans { scans = scan 1 complete ∷ scan 2 state ∷ [] }

abbrev pub same_text : String → String
same_text s = s
