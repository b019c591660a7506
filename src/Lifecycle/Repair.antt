-- ===== src/Lifecycle/Repair.antt =====
-- The test `covered` that `repairLifecycleFindings` of internal/store/lifecycle_repair.go hands to
-- `computeLifecycleTimeline`, from the maps that it reads before.
use nuclei_security_center.Common.{
  ℕ, String, Bool, true, false, ◌&&◌, ◌||◌, not, Option, none, some, List, ltb, any, is_some,
  str_eq, if◌then◌else◌,
}
use nuclei_security_center.Store.Rows.{ScanRow, EndpointCoverage}
use nuclei_security_center.Store.Complete.{origin_allows}

-- `targetScopeKey`
abbrev pub target_scope_key : Option String → String
target_scope_key none = ""
target_scope_key (some t) = t

abbrev pub has_scope : String → List String → Bool
has_scope key targets = any (str_eq key) targets

-- The pair is in the set that is made of a scan's pairs without the incomplete ones.
abbrev pub in_coverage : String → String → Option (List EndpointCoverage) → Bool
in_coverage template endpoint none = false
in_coverage template endpoint (some pairs) =
    any
      (λ p.
        not (str_eq p.template_id "" || str_eq p.endpoint "")
        && (str_eq template p.template_id && str_eq endpoint p.endpoint))
      pairs

module _ (row_of : ℕ → ScanRow) (occ_by_scan : ℕ → Option ℕ) (targets : List String)
    (template endpoint : String) where
  unfoldable pub covered : ℕ → Bool
  covered scan =
      if not (has_scope (target_scope_key (row_of scan).target_id) targets)
      then false
      else if is_some (occ_by_scan scan)
      then true
      else if ltb 0 (row_of scan).skipped_finding_count
      then false
      else if not (origin_allows (row_of scan).coverage_origin)
      then false
      else if str_eq endpoint ""
      then false
      else in_coverage template endpoint (row_of scan).covered_endpoints
