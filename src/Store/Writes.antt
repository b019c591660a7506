-- ===== src/Store/Writes.antt =====
-- The other writes to the tables `scans` and `scan_notification_outbox`: the row that
-- `ImportScanBundle` of internal/store/scanbundle.go inserts, and what the DELETE of `DeleteScan` in
-- internal/store/store.go removes. What an import does with the bundle's findings and its coverage,
-- and the repair of lifecycle rows after a deletion, write other tables and are not part of it.
use nuclei_security_center.Common.{
  ℕ, String, Bool, true, false, Option, none, some, List, [], ◌∷◌, ◌==◌, is_some, str_eq,
  if◌then◌else◌,
}
use nuclei_security_center.Store.Rows.{
  ScanState, failed, CoverageOrigin, import_untrusted, import_trusted, EndpointCoverage, ScanRow,
  Notification, Db,
}
use nuclei_security_center.Store.Scans.{find_scan, is_cancellable, null_str}
use nuclei_security_center.Store.Statements.{Statement, execute}

-- The scan of a bundle, with the references that exist here, as far as the row keeps it.
pub record BundleScan : Type 0 where
  pub id : ℕ
  pub state : ScanState
  pub error : String
  pub created_at : ℕ
  pub started_at : Option ℕ
  pub finished_at : Option ℕ
  pub target_id : String
  pub node_id : String
  pub nuclei_version : String
  pub templates_commit : String
  pub skipped_finding_count : ℕ
  pub discovered_targets : List String
  pub covered_endpoints : Option (List EndpointCoverage)
  pub coverage_warning : String

abbrev pub in_flight_message : String
in_flight_message = "scan was in-flight when exported; imported as failed"

abbrev pub imported_state : ScanState → ScanState
imported_state s = if is_cancellable s then failed else s

abbrev pub imported_error : BundleScan → String
imported_error b =
    if is_cancellable b.state
    then (if str_eq b.error "" then in_flight_message else b.error)
    else b.error

abbrev pub imported_origin : Bool → CoverageOrigin
imported_origin trust = if trust then import_trusted else import_untrusted

-- The warning is kept only with the coverage that it describes.
abbrev pub imported_warning : Bool → BundleScan → Option String
imported_warning false b = none
imported_warning true b = if is_some b.covered_endpoints then null_str b.coverage_warning else none

-- `trust` says whether the coverage mode is `ImportCoverageTrust`.
unfoldable pub imported_row : Bool → BundleScan → ScanRow
imported_row trust b = record {
  id = b.id;
  state = imported_state b.state;
  created_at = b.created_at;
  started_at = b.started_at;
  finished_at = b.finished_at;
  error = null_str (imported_error b);
  target_id = null_str b.target_id;
  node_id = null_str b.node_id;
  node_scan_id = none;
  nuclei_version = null_str b.nuclei_version;
  templates_commit = null_str b.templates_commit;
  discovered_targets = some b.discovered_targets;
  covered_endpoints = if trust then b.covered_endpoints else none;
  coverage_warning = imported_warning trust b;
  coverage_origin = imported_origin trust;
  skipped_finding_count = b.skipped_finding_count;
  raw_object_key = none;
  log_object_key = none;
  notify_min_severity = none;
}

-- An id that is taken is a conflict and inserts nothing. A duplicate is imported under a new id.
unfoldable pub import_scan : Bool → BundleScan → Db → Db
unfolding imported_row
import_scan trust b db =
    if is_some (find_scan b.id db.scans)
    then db
    else record db { scans = imported_row trust b ∷ db.scans }

unfoldable pub without_scan : ℕ → List ScanRow → List ScanRow
without_scan id [] = []
without_scan id (r ∷ rs) = let rest = without_scan id rs in if r.id == id then rest else r ∷ rest

-- `ON DELETE CASCADE`
unfoldable pub without_notifications : ℕ → List Notification → List Notification
without_notifications id [] = []
without_notifications id (n ∷ ns) =
    let rest = without_notifications id ns in if n.scan_id == id then rest else n ∷ rest

-- A scan that is queued or running is a conflict, and so is not deleted; one that is not there is an
-- error.
unfoldable pub delete_scan_row : ℕ → Db → Db
unfolding without_scan without_notifications
delete_scan_row id db = elim (find_scan id db.scans) [
  | none ↦ db
  | some r ↦ if is_cancellable r.state then db else record db {
    scans = without_scan id db.scans;
    outbox = without_notifications id db.outbox;
  }
]

pub data Write : Type 0 where
  statement : Statement → Write
  imported : Bool → BundleScan → Write
  deleted : ℕ → Write

module _ (lower : String → String) where
  unfoldable pub write : Write → Db → Db
  unfolding import_scan delete_scan_row
  write (statement s) db = execute lower s db
  write (imported trust b) db = import_scan trust b db
  write (deleted id) db = delete_scan_row id db

  unfoldable pub write_all : List Write → Db → Db
  unfolding write
  write_all [] db = db
  write_all (w ∷ ws) db = write_all ws (write w db)
