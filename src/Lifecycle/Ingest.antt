-- ===== src/Lifecycle/Ingest.antt =====
-- `ingestFindingOccurrence` of internal/store/lifecycle.go: the upsert of the lifecycle row, whose
-- SQL is a CASE for each column, and the move of `last_covering_scan` in `MarkComplete` of
-- internal/store/store.go.
use Prim.Native.Nat.{min}
use nuclei_security_center.Common.{
  ℕ, ◌+◌, String, Bool, true, false, ◌&&◌, Option, none, some, List, is_some, distinct_from,
  if◌then◌else◌,
}
use nuclei_security_center.Store.Rows.{
  ScanRow, Observed, LifecycleRow, no_disposition, created_of, row_before,
}

-- The parameters of the statement: `preparedOccurrence`, the scan, and the new occurrence's id.
pub record Incoming : Type 0 where
  pub scan_id : ℕ
  pub scan_created_at : ℕ
  pub occurrence_id : ℕ
  pub occurred_at : ℕ
  pub key : String
  pub discriminator : String
  pub template_id : String
  pub observed : Observed

-- `COALESCE((SELECT … FROM scans WHERE id = pointer), true)`: a pointer whose scan is gone selects
-- no row, and neither does NULL below.
compare_pointer : (ℕ → ℕ → Bool) → ℕ → Option ℕ → Bool
compare_pointer test pointer none = true
compare_pointer test pointer (some created) = test created pointer

-- A pointer column read through the table `scans`.
through : (ℕ → ℕ → Bool) → List ScanRow → Option ℕ → Bool
unfolding compare_pointer
through test scans none = true
through test scans (some pointer) = compare_pointer test pointer (created_of pointer scans)

module _ (scans : List ScanRow) (i : Incoming) (r : LifecycleRow) where
  -- `incomingNewer`
  unfoldable pub incoming_newer : Bool
  unfolding through
  incoming_newer =
      through (λ created id. row_before created id i.scan_created_at i.scan_id) scans
        r.last_seen_scan

  -- `incomingOlder`
  unfoldable pub incoming_older : Bool
  unfolding through
  incoming_older =
      through (λ created id. row_before i.scan_created_at i.scan_id created id) scans
        r.first_seen_scan

  -- `incomingAfterCovering`
  unfoldable pub incoming_after_covering : Bool
  unfolding through
  incoming_after_covering =
      through (λ created id. row_before created id i.scan_created_at i.scan_id) scans
        r.last_covering_scan

  -- The CASE that adds one to `times_mitigated`.
  unfoldable pub closes_gap : Bool
  unfolding incoming_newer incoming_after_covering
  closes_gap =
      incoming_newer
      && incoming_after_covering
      && is_some r.last_covering_scan
      && distinct_from r.last_seen_scan r.last_covering_scan
      && distinct_from r.last_seen_scan (some i.scan_id)

  -- `ON CONFLICT (dedup_key) DO UPDATE SET …`
  unfoldable pub observe_again : LifecycleRow
  unfolding incoming_newer incoming_older closes_gap
  observe_again = record r {
    first_seen_scan = if incoming_older then some i.scan_id else r.first_seen_scan;
    first_seen_at = min r.first_seen_at i.occurred_at;
    last_seen_scan = if incoming_newer then some i.scan_id else r.last_seen_scan;
    last_seen_at = if incoming_newer then i.occurred_at else r.last_seen_at;
    observed = if incoming_newer then i.observed else r.observed;
    latest_occurrence_id = if incoming_newer then some i.occurrence_id else r.latest_occurrence_id;
    times_mitigated = r.times_mitigated + (if closes_gap then 1 else 0);
  }

-- `INSERT INTO finding_lifecycle … VALUES …`, the other columns at their defaults.
unfoldable pub observe_first : ℕ → Incoming → LifecycleRow
observe_first id i = record {
  id = id;
  dedup_key = i.key;
  result_discriminator = i.discriminator;
  template_id = i.template_id;
  observed = i.observed;
  first_seen_scan = some i.scan_id;
  first_seen_at = i.occurred_at;
  last_seen_scan = some i.scan_id;
  last_seen_at = i.occurred_at;
  latest_occurrence_id = some i.occurrence_id;
  last_covering_scan = none;
  times_mitigated = 0;
  disposition = no_disposition;
  accept_expires_at = none;
  recast_severity = none;
}

-- The upsert on the row that has the key, if there is one.
unfoldable pub upsert : List ScanRow → ℕ → Incoming → Option LifecycleRow → LifecycleRow
unfolding observe_again observe_first
upsert scans id i none = observe_first id i
upsert scans id i (some r) = observe_again scans i r

-- The pointer's condition in `covering_update`: NULL, or a scan that exists and is earlier.
unfoldable pub pointer_earlier : List ScanRow → ℕ → ℕ → Option ℕ → Bool
pointer_earlier scans scan created none = true
pointer_earlier scans scan created (some pointer) = elim (created_of pointer scans) [
  | none ↦ false
  | some earlier ↦ row_before earlier pointer created scan
]

-- `UPDATE finding_lifecycle SET last_covering_scan = completed_scan.id` for a candidate row.
unfoldable pub cover : List ScanRow → ℕ → ℕ → LifecycleRow → LifecycleRow
unfolding pointer_earlier
cover scans scan created r =
    if pointer_earlier scans scan created r.last_covering_scan
    then record r { last_covering_scan = some scan }
    else r
