-- ===== src/Examples/Lifecycle.antt =====
-- Runs of the lifecycle: a finding over four scans, and the overlays.
use mathlib.Core.Option
use nuclei_security_center.Common.{
  ℕ, ◌+◌, ◌≡◌, refl, true, false, Bool, Option, some, none, List, [], ◌∷◌, arith, ◌==◌,
  if◌then◌else◌, eq_iff,
}
use nuclei_security_center.Store.Rows.{complete, ScanRow, created_of, row_before}
use nuclei_security_center.Lifecycle.Ingest.{Incoming, incoming_newer, observe_again}
use nuclei_security_center.Lifecycle.Timeline.{compute_lifecycle_timeline, timeline_from, visit}
use nuclei_security_center.Store.Scans.{find_scan}
use nuclei_security_center.Lifecycle.Agreement.{row_evidence, repaired}
use nuclei_security_center.Lifecycle.Repair.{covered}
use nuclei_security_center.Lifecycle.Scope.{Known, live_scans, live-eq-repair}
use nuclei_security_center.Lifecycle.Gaps.{gaps, sightings, times_mitigated-eq-gaps}
use nuclei_security_center.Lifecycle.Detection.{detection_state, is_closed}
use nuclei_security_center.Lifecycle.Overlap.{observed_reads_closed, overlap_counts_gap}
use nuclei_security_center.Examples.Data.{scan, seen, finding}

-- Four scans, of which the second misses the finding and the last does not cover it.
abbrev scans : List ScanRow
scans = scan 1 complete ∷ scan 2 complete ∷ scan 3 complete ∷ scan 4 complete ∷ []

abbrev at_time : ℕ → ℕ
at_time scan = scan

abbrev incoming : ℕ → Incoming
incoming scan = record {
  scan_id = scan;
  scan_created_at = scan;
  occurrence_id = scan + 10;
  occurred_at = scan;
  key = "k";
  discriminator = "";
  template_id = "cve-1";
  observed = seen;
}

abbrev covers : ℕ → Bool
covers scan = if scan == 4 then false else true

abbrev occurrences : ℕ → Option ℕ
occurrences scan = if scan == 2 then none else some (scan + 10)

abbrev rows : ℕ → ScanRow
rows id = scan id complete

known :
    (x : ℕ)
    → find_scan x scans ≡ some (rows x)
    → Known scans at_time incoming rows occurrences (some "t") "cve-1" "10.0.0.1:443" x
known x h = record {
  found = h;
  same_id = refl;
  same_time = refl;
  same_scope = refl;
  same_template = refl;
  same_endpoint = refl;
}

live-eq-repair_example :
    Option.map row_evidence
      (live_scans scans at_time incoming rows occurrences none [] (1 ∷ 2 ∷ 3 ∷ []))
    ≡ repaired (
        compute_lifecycle_timeline
          (covered rows occurrences ("t" ∷ []) "cve-1" "10.0.0.1:443")
          occurrences
          (1 ∷ 2 ∷ 3 ∷ []))
unfolding row_before created_of find_scan
live-eq-repair_example =
    live-eq-repair scans at_time incoming rows occurrences (some "t") "cve-1" "10.0.0.1:443"
      ("t" ∷ []) (1 ∷ 2 ∷ 3 ∷ []) (λ e. ground (arith, (eq_iff "cve-1" "").1 e)) refl
      (known 1 refl, (known 2 refl, (known 3 refl, tt)))
      ((refl, (refl, tt)), ((refl, tt), (tt, tt))) (refl, (refl, (refl, tt)))

times_mitigated-eq-gaps_example :
    (compute_lifecycle_timeline covers occurrences (1 ∷ 2 ∷ 3 ∷ [])).times_mitigated
    ≡ gaps (sightings covers occurrences (1 ∷ 2 ∷ 3 ∷ []))
times_mitigated-eq-gaps_example = times_mitigated-eq-gaps covers occurrences (1 ∷ 2 ∷ 3 ∷ [])

-- The finding comes back once.
one_gap_test : (compute_lifecycle_timeline covers occurrences (1 ∷ 2 ∷ 3 ∷ [])).times_mitigated ≡ 1
unfolding compute_lifecycle_timeline timeline_from visit
one_gap_test = refl

observed_reads_closed_example :
    is_closed (detection_state (observe_again scans (incoming 2) finding)) ≡ true
unfolding incoming_newer created_of row_before
observed_reads_closed_example =
    observed_reads_closed scans (incoming 2) finding 1 refl (omega arith) refl

overlap_counts_gap_example :
    (observe_again scans (incoming 3) (observe_again scans (incoming 2) finding)).times_mitigated
    ≡ finding.times_mitigated + 1
unfolding created_of row_before
overlap_counts_gap_example =
    overlap_counts_gap scans (incoming 2) (incoming 3) finding 1 1 refl refl refl refl refl refl
      refl (omega arith) (omega arith)
