-- ===== src/Store/Complete.antt =====
-- `MarkComplete` of internal/store/store.go: one statement, so every part reads the tables as they
-- were before it, and `completed_scan` as the update returns it.
use mathlib.Core.Option
use nuclei_security_center.Common.{
  ℕ, String, Bool, true, false, ◌&&◌, ◌||◌, not, Option, none, some, List, [], ◌∷◌, ◌==◌, map, any,
  distinct_from, str_eq, if◌then◌else◌,
}
use nuclei_security_center.Store.Rows.{
  ScanRow, LifecycleRow, Occurrence, CoverageOrigin, node, import_untrusted, import_trusted,
  EndpointCoverage, digest, digest_payload, DigestFinding, Db,
}
use nuclei_security_center.Store.Scans.{
  update_where, returning, find_scan, completes, complete_row, enqueue,
}
use nuclei_security_center.Store.Digest.{mailed, digest_of}
use nuclei_security_center.Lifecycle.Ingest.{pointer_earlier, cover}

-- `coverageOriginAllowsClaimedCoverage`, and `coverageOriginClaimedSQL`
abbrev pub origin_allows : CoverageOrigin → Bool
origin_allows node = true
origin_allows import_trusted = true
origin_allows import_untrusted = false

-- `coverage_pairs`
unfoldable pub coverage_pairs : ScanRow → List EndpointCoverage
coverage_pairs cs =
    if origin_allows cs.coverage_origin && cs.skipped_finding_count == 0
    then Option.get_or cs.covered_endpoints []
    else []

-- The exact (template, endpoint) pair of the row is among the pairs.
unfoldable pub pair_covers : List EndpointCoverage → LifecycleRow → Bool
pair_covers pairs l =
    not (str_eq l.observed.endpoint_key "")
    && any (λ p. str_eq l.template_id p.template_id && str_eq l.observed.endpoint_key p.endpoint)
        pairs

-- An occurrence of the row in the scan.
unfoldable pub observed_by : List Occurrence → ℕ → ℕ → Bool
observed_by findings scan lifecycle =
    any (λ f. f.scan_id == scan && not (distinct_from f.finding_id (some lifecycle))) findings

-- `candidate_lifecycle`
unfoldable pub is_candidate : Db → ScanRow → LifecycleRow → Bool
unfolding coverage_pairs pair_covers observed_by
is_candidate db cs l = pair_covers (coverage_pairs cs) l || observed_by db.findings cs.id l.id

-- `IS NOT DISTINCT FROM` on target ids.
unfoldable pub same_target : Option String → Option String → Bool
same_target none none = true
same_target none (some b) = false
same_target (some a) none = false
same_target (some a) (some b) = str_eq a b

unfoldable pub in_target : Option String → Option ScanRow → Bool
unfolding same_target
in_target target none = false
in_target target (some s) = same_target s.target_id target

-- The row has an occurrence in some scan of the same target (or of none).
unfoldable pub is_associated : Db → ScanRow → LifecycleRow → Bool
unfolding same_target in_target
is_associated db cs l =
    any
      (λ f.
        not (distinct_from f.finding_id (some l.id))
        && in_target cs.target_id (find_scan f.scan_id db.scans))
      db.findings

-- The row is among `covering_update`.
unfoldable pub is_covered : Db → ScanRow → LifecycleRow → Bool
unfolding is_candidate is_associated
is_covered db cs l =
    is_candidate db cs l
    && is_associated db cs l
    && pointer_earlier db.scans cs.id cs.created_at l.last_covering_scan

-- `covering_update` on one row.
unfoldable pub cover_row : Db → ScanRow → LifecycleRow → LifecycleRow
unfolding is_candidate is_associated cover
cover_row db cs l =
    if is_candidate db cs l && is_associated db cs l
    then cover db.scans cs.id cs.created_at l
    else l

keep : Option DigestFinding → List DigestFinding → List DigestFinding
keep none fs = fs
keep (some f) fs = f ∷ fs

module _ (lower : String → String) where
  unfoldable pub mailed_rows : Db → ScanRow → ℕ → List LifecycleRow → List DigestFinding
  unfolding is_covered keep
  mailed_rows db cs now [] = []
  mailed_rows db cs now (l ∷ ls) =
      let rest = mailed_rows db cs now ls in
      if is_covered db cs l then keep (mailed lower db.findings cs now l) rest else rest

  -- What one row of `completed_scan` brings about.
  unfoldable pub complete_with : Db → ℕ → List ScanRow → List ScanRow → Db
  unfolding cover_row mailed_rows
  complete_with db now scans [] = db
  complete_with db now scans (cs ∷ rest) = record db {
    scans = scans;
    lifecycle = map (cover_row db cs) db.lifecycle;
    outbox =
        enqueue cs.id digest (digest_payload (digest_of (mailed_rows db cs now db.lifecycle)))
          db.outbox;
  }

  unfoldable pub mark_complete : ℕ → String → String → ℕ → Db → Db
  unfolding complete_with complete_row
  mark_complete id version commit now db =
      let change = complete_row version commit now in
      complete_with db now (update_where (completes id) change db.scans)
        (returning (completes id) change db.scans)
