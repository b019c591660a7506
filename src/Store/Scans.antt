-- ===== src/Store/Scans.antt =====
-- The statements of internal/store/store.go that move a scan through its states. Each is one SQL
-- statement, so one step. `now` is the database's clock.
use mathlib.Core.Option
use nuclei_security_center.Common.{
  ℕ, String, Bool, true, false, ◌&&◌, ◌||◌, not, Option, none, some, List, [], ◌∷◌, ◌==◌, length,
  is_some, str_eq, if◌then◌else◌,
}
use nuclei_security_center.Common.Int.{ℤ, is_neg, pos_part}
use nuclei_security_center.Store.Rows.{
  ScanState, queued, running, complete, failed, cancelled, node, EndpointCoverage, ScanRow,
  NotifyKind, digest, failure, Payload, reason_payload, Notification, Db,
}

-- `UPDATE scans SET … WHERE …`
unfoldable pub update_where : (ScanRow → Bool) → (ScanRow → ScanRow) → List ScanRow → List ScanRow
update_where test change [] = []
update_where test change (r ∷ rs) = (if test r then change r else r) ∷ update_where test change rs

-- The rows that the statement updates, as `RETURNING` gives them.
unfoldable pub returning : (ScanRow → Bool) → (ScanRow → ScanRow) → List ScanRow → List ScanRow
returning test change [] = []
returning test change (r ∷ rs) =
    let rest = returning test change rs in if test r then change r ∷ rest else rest

unfoldable pub find_scan : ℕ → List ScanRow → Option ScanRow
find_scan id [] = none
find_scan id (r ∷ rs) = if r.id == id then some r else find_scan id rs

abbrev pub is_queued : ScanState → Bool
is_queued queued = true
is_queued _ = false

-- `scanCancellableStates`
abbrev pub is_cancellable : ScanState → Bool
is_cancellable queued = true
is_cancellable running = true
is_cancellable _ = false

abbrev pub is_cancelled : ScanState → Bool
is_cancelled cancelled = true
is_cancelled _ = false

abbrev pub null_str : String → Option String
null_str s = if str_eq s "" then none else some s

abbrev pub coalesce {ℓ} : {A : Type ℓ} → Option A → Option A → Option A
coalesce none b = b
coalesce (some a) b = some a

same_kind : NotifyKind → NotifyKind → Bool
same_kind digest digest = true
same_kind failure failure = true
same_kind digest failure = false
same_kind failure digest = false

-- Whether the outbox has the key (scan_id, kind).
unfoldable pub queued_for : ℕ → NotifyKind → List Notification → Bool
unfolding same_kind
queued_for scan kind [] = false
queued_for scan kind (n ∷ ns) =
    n.scan_id == scan && same_kind n.kind kind || queued_for scan kind ns

-- `INSERT … ON CONFLICT (scan_id, kind) DO NOTHING`
unfoldable pub enqueue : ℕ → NotifyKind → Payload → List Notification → List Notification
enqueue scan kind payload ns =
    if queued_for scan kind ns
    then ns
    else record { scan_id = scan; kind = kind; payload = payload } ∷ ns

-- One `failed` notification for each row that was failed; `coalesce(error, '')` is the reason.
unfoldable pub enqueue_failures : List ScanRow → List Notification → List Notification
unfolding enqueue
enqueue_failures [] ns = ns
enqueue_failures (r ∷ rs) ns =
    enqueue_failures rs (enqueue r.id failure (reason_payload (Option.get_or r.error "")) ns)

-- The row that `CreateScan` inserts: the columns that it does not name are at their defaults.
unfoldable pub new_scan_row : ℕ → ℕ → String → String → String → ScanRow
new_scan_row id now target commit min_severity = record {
  id = id;
  state = queued;
  created_at = now;
  started_at = none;
  finished_at = none;
  error = none;
  target_id = null_str target;
  node_id = none;
  node_scan_id = none;
  nuclei_version = none;
  templates_commit = null_str commit;
  discovered_targets = none;
  covered_endpoints = none;
  coverage_warning = none;
  coverage_origin = node;
  skipped_finding_count = 0;
  raw_object_key = none;
  log_object_key = none;
  notify_min_severity = null_str min_severity;
}

-- `CreateScan`: the id is a primary key, so a clash is an error and inserts nothing.
unfoldable pub create_scan : ℕ → ℕ → String → String → String → Db → Db
unfolding new_scan_row
create_scan id now target commit min_severity db =
    if is_some (find_scan id db.scans)
    then db
    else record db { scans = new_scan_row id now target commit min_severity ∷ db.scans }

-- `SetScanNode`
unfoldable pub set_scan_node : ℕ → String → Db → Db
set_scan_node id node_id db = if str_eq node_id "" then db else record db {
  scans = update_where (λ r. r.id == id) (λ r. record r { node_id = some node_id }) db.scans;
}

unfoldable pub run_row : String → ℕ → ScanRow → ScanRow
run_row node_scan now r = record r {
  state = running;
  node_scan_id = some node_scan;
  started_at = some now;
}

-- `MarkRunning`; the flag is `RowsAffected() == 1`.
unfoldable pub mark_running : ℕ → String → ℕ → Db → Db × Bool
unfolding run_row
mark_running id node_scan now db =
    let test = λ (r : ScanRow). r.id == id && is_queued r.state in
    (
      record db { scans = update_where test (run_row node_scan now) db.scans },
      length (returning test (run_row node_scan now) db.scans) == 1,
    )

unfoldable pub fail_row : String → String → String → ℕ → ScanRow → ScanRow
fail_row reason version commit now r = record r {
  state = failed;
  error = some reason;
  finished_at = some now;
  nuclei_version = coalesce (null_str version) r.nuclei_version;
  templates_commit = coalesce (null_str commit) r.templates_commit;
}

-- `MarkFailed`: `state NOT IN (cancelled, complete, failed)`.
unfoldable pub mark_failed : ℕ → String → String → String → ℕ → Db → Db
unfolding fail_row enqueue_failures
mark_failed id reason version commit now db =
    let test = λ (r : ScanRow). r.id == id && is_cancellable r.state in
    let change = fail_row reason version commit now in
    record db {
      scans = update_where test change db.scans;
      outbox = enqueue_failures (returning test change db.scans) db.outbox;
    }

-- `SetScanVersions`
unfoldable pub set_scan_versions : ℕ → String → String → Db → Db
set_scan_versions id version commit db = record db {
  scans =
      update_where (λ r. r.id == id)
        (λ r. record r {
          nuclei_version = coalesce r.nuclei_version (null_str version);
          templates_commit = coalesce r.templates_commit (null_str commit);
        })
        db.scans;
}

-- `SetScanSkippedFindingCount`; `none` is the error of a negative count.
unfoldable pub set_scan_skipped_finding_count : ℕ → ℤ → Db → Option Db
set_scan_skipped_finding_count id count db =
    if is_neg count
    then none
    else some (record db {
      scans =
          update_where (λ r. r.id == id) (λ r. record r { skipped_finding_count = pos_part count })
            db.scans;
    })

unfoldable pub orphan_row : String → ℕ → ScanRow → ScanRow
orphan_row reason now r = record r { state = failed; error = some reason; finished_at = some now }

-- `FailOrphanedScans`; the number is the count of rows that it failed.
unfoldable pub fail_orphaned_scans : String → ℕ → Db → Db × ℕ
unfolding orphan_row enqueue_failures
fail_orphaned_scans reason now db =
    let test = λ (r : ScanRow). is_cancellable r.state in
    let change = orphan_row reason now in
    (
      record db {
        scans = update_where test change db.scans;
        outbox = enqueue_failures (returning test change db.scans) db.outbox;
      },
      length (returning test change db.scans),
    )

unfoldable pub complete_row : String → String → ℕ → ScanRow → ScanRow
complete_row version commit now r = record r {
  state = complete;
  nuclei_version = some version;
  templates_commit = some commit;
  finished_at = some now;
}

-- The first part of `MarkComplete`, `completed_scan`: `state <> cancelled`.
abbrev pub completes : ℕ → ScanRow → Bool
completes id r = r.id == id && not (is_cancelled r.state)

-- `SetScanDiscovered`
unfoldable pub set_scan_discovered : ℕ → List String → Db → Db
set_scan_discovered id [] db = db
set_scan_discovered id (t ∷ ts) db = record db {
  scans =
      update_where (λ r. r.id == id) (λ r. record r { discovered_targets = some (t ∷ ts) })
        db.scans;
}

-- `SetScanCoverage`: nil evidence is NULL.
unfoldable pub set_scan_coverage : ℕ → Option (List EndpointCoverage) → String → Db → Db
set_scan_coverage id endpoints warning db = record db {
  scans =
      update_where (λ r. r.id == id)
        (λ r. record r {
          covered_endpoints = endpoints;
          coverage_warning = null_str warning;
          coverage_origin = node;
        })
        db.scans;
}

-- `SetScanRawObject`
unfoldable pub set_scan_raw_object : ℕ → String → Db → Db
set_scan_raw_object id key db = record db {
  scans = update_where (λ r. r.id == id) (λ r. record r { raw_object_key = some key }) db.scans;
}

-- `SetScanLogObject`
unfoldable pub set_scan_log_object : ℕ → String → Db → Db
set_scan_log_object id key db = record db {
  scans = update_where (λ r. r.id == id) (λ r. record r { log_object_key = some key }) db.scans;
}

unfoldable pub cancel_row : String → ℕ → ScanRow → ScanRow
cancel_row reason now r = record r {
  state = cancelled;
  error = some reason;
  finished_at = some now;
}

-- What `CancelScan` returns: the node's scan id, and whether the transition happened.
cancel_result : List ScanRow → String × Bool
cancel_result [] = ("", false)
cancel_result (r ∷ rs) = (Option.get_or r.node_scan_id "", true)

-- `CancelScan`
unfoldable pub cancel_scan : ℕ → String → ℕ → Db → Db × (String × Bool)
unfolding cancel_row cancel_result
cancel_scan id reason now db =
    let test = λ (r : ScanRow). r.id == id && is_cancellable r.state in
    (
      record db { scans = update_where test (cancel_row reason now) db.scans },
      cancel_result (returning test (cancel_row reason now) db.scans),
    )
