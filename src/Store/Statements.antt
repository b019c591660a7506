-- ===== src/Store/Statements.antt =====
-- Any sequence of the statements of internal/store/store.go that drive a scan, on the table `scans` and
-- the outbox. Imports and deletions are in Store/Writes.
use mathlib.Core.Option
use nuclei_security_center.Common.{ℕ, String, Option, List, [], ◌∷◌}
use nuclei_security_center.Common.Int.{ℤ}
use nuclei_security_center.Store.Rows.{EndpointCoverage, Db}
use nuclei_security_center.Store.Scans.{
  create_scan, set_scan_node, mark_running, mark_failed, set_scan_versions,
  set_scan_skipped_finding_count, fail_orphaned_scans, set_scan_discovered, set_scan_coverage,
  set_scan_raw_object, set_scan_log_object, cancel_scan,
}
use nuclei_security_center.Store.Complete.{mark_complete}

pub data Statement : Type 0 where
  create : ℕ → ℕ → String → String → String → Statement
  node : ℕ → String → Statement
  start : ℕ → String → ℕ → Statement
  fail : ℕ → String → String → String → ℕ → Statement
  versions : ℕ → String → String → Statement
  skipped : ℕ → ℤ → Statement
  orphans : String → ℕ → Statement
  finish : ℕ → String → String → ℕ → Statement
  discovered : ℕ → List String → Statement
  coverage : ℕ → Option (List EndpointCoverage) → String → Statement
  raw_object : ℕ → String → Statement
  log_object : ℕ → String → Statement
  cancel : ℕ → String → ℕ → Statement

module _ (lower : String → String) where
  unfoldable pub execute : Statement → Db → Db
  execute (create id now target commit floor) db = create_scan id now target commit floor db
  execute (node id node_id) db = set_scan_node id node_id db
  execute (start id node_scan now) db = (mark_running id node_scan now db).0
  execute (fail id reason version commit now) db = mark_failed id reason version commit now db
  execute (versions id version commit) db = set_scan_versions id version commit db
  execute (skipped id count) db = Option.get_or (set_scan_skipped_finding_count id count db) db
  execute (orphans reason now) db = (fail_orphaned_scans reason now db).0
  execute (finish id version commit now) db = mark_complete lower id version commit now db
  execute (discovered id targets) db = set_scan_discovered id targets db
  execute (coverage id endpoints warning) db = set_scan_coverage id endpoints warning db
  execute (raw_object id key) db = set_scan_raw_object id key db
  execute (log_object id key) db = set_scan_log_object id key db
  execute (cancel id reason now) db = (cancel_scan id reason now db).0

  unfoldable pub execute_all : List Statement → Db → Db
  unfolding execute
  execute_all [] db = db
  execute_all (s ∷ ss) db = execute_all ss (execute s db)

abbrev pub empty_db : Db
empty_db = record { scans = []; findings = []; lifecycle = []; outbox = [] }
