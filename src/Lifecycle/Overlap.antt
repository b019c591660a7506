-- ===== src/Lifecycle/Overlap.antt =====
-- Observations that reach the lifecycle row before their scan completes, or from a scan that never
-- completes.
use nuclei_security_center.Common.{ℕ, ◌+◌, ◌≡◌, ◌≢◌, true, some, List, arith}
use nuclei_security_center.Store.Rows.{ScanRow, LifecycleRow, created_of, row_before}
use nuclei_security_center.Lifecycle.Ingest.{Incoming, incoming_newer, observe_again}
use nuclei_security_center.Lifecycle.Detection.{detection_state, is_closed}

module _ (scans : List ScanRow) (i : Incoming) (r : LifecycleRow) (c : ℕ) where
  -- A row that some scan covers reads as closed right after a newer scan, other than that one, has
  -- observed it.
  pub observed_reads_closed :
      r.last_covering_scan ≡ some c
      → i.scan_id ≢ c
      → incoming_newer scans i r ≡ true
      → is_closed (detection_state (observe_again scans i r)) ≡ true
  unfolding detection_state observe_again
  observed_reads_closed cover differs newer = ground arith

module _ (scans : List ScanRow) (i j : Incoming) (r : LifecycleRow) (c created : ℕ) where
  -- A row whose covering scan is also the last that saw it is observed by two newer scans, one after
  -- the other in their order and with no completion between: that adds one to `times_mitigated`.
  pub overlap_counts_gap :
      r.last_seen_scan ≡ some c
      → r.last_covering_scan ≡ some c
      → created_of c scans ≡ some created
      → created_of i.scan_id scans ≡ some i.scan_created_at
      → row_before created c i.scan_created_at i.scan_id ≡ true
      → row_before created c j.scan_created_at j.scan_id ≡ true
      → row_before i.scan_created_at i.scan_id j.scan_created_at j.scan_id ≡ true
      → c ≢ i.scan_id
      → i.scan_id ≢ j.scan_id
      → (observe_again scans j (observe_again scans i r)).times_mitigated ≡ r.times_mitigated + 1
  unfolding observe_again
  overlap_counts_gap last cover tc ti ci cj ij ci≢ ij≢ = ground arith
