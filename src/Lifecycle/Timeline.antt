-- ===== src/Lifecycle/Timeline.antt =====
-- `computeLifecycleTimeline` of internal/store/lifecycle_repair.go.
use nuclei_security_center.Common.{
  ℕ, ◌+◌, Bool, true, false, ◌&&◌, not, Option, none, some, List, [], ◌∷◌, if◌then◌else◌,
}

-- The five results, and the two local flags of the loop.
pub record Timeline : Type 0 where
  pub first_seen_scan : Option ℕ
  pub last_seen_scan : Option ℕ
  pub latest_occurrence_id : Option ℕ
  pub last_covering_scan : Option ℕ
  pub times_mitigated : ℕ
  pub was_present : Bool
  pub ever_present : Bool

abbrev pub empty_timeline : Timeline
empty_timeline = record {
  first_seen_scan = none;
  last_seen_scan = none;
  latest_occurrence_id = none;
  last_covering_scan = none;
  times_mitigated = 0;
  was_present = false;
  ever_present = false;
}

-- `if firstSeenScan == nil { firstSeenScan = &id }`
first_or : Option ℕ → ℕ → Option ℕ
first_or none scan = some scan
first_or (some s) scan = some s

-- The body of the loop behind `continue`: whether the scan observed the finding, and as which
-- occurrence.
unfoldable pub visit : ℕ → Option ℕ → Timeline → Timeline
unfolding first_or
visit scan (some occurrence) t = record {
  first_seen_scan = first_or t.first_seen_scan scan;
  last_seen_scan = some scan;
  latest_occurrence_id = some occurrence;
  last_covering_scan = some scan;
  times_mitigated =
      if t.ever_present && not t.was_present then t.times_mitigated + 1 else t.times_mitigated;
  was_present = true;
  ever_present = true;
}
visit scan none t = record t { last_covering_scan = some scan; was_present = false }

module _ (covered : ℕ → Bool) (occ_by_scan : ℕ → Option ℕ) where
  unfoldable pub timeline_from : Timeline → List ℕ → Timeline
  timeline_from t [] = t
  timeline_from t (scan ∷ scans) =
      timeline_from (if covered scan then visit scan (occ_by_scan scan) t else t) scans

  unfoldable pub compute_lifecycle_timeline : List ℕ → Timeline
  unfolding timeline_from visit
  compute_lifecycle_timeline = timeline_from empty_timeline
