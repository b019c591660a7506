-- ===== src/Store/Digest.antt =====
-- The digest of a completed scan: `digest_rows`, `mailed` and `digest_payload` of `MarkComplete` in
-- internal/store/store.go. `lower` is PostgreSQL's function.
use mathlib.Core.Option
use nuclei_security_center.Common.{
  ℕ, ◌+◌, String, Bool, true, false, ◌&&◌, ◌||◌, not, Option, none, some, List, [], ◌∷◌, ◌==◌, ltb,
  leb, any, is_some, distinct_from, str_eq, if◌then◌else◌,
}
use nuclei_security_center.Store.Rows.{
  ScanRow, LifecycleRow, Occurrence, DigestStatus, Severity, SeverityCounts, DigestFinding, Digest,
}
use nuclei_security_center.Lifecycle.Detection.{
  EffectiveState, accepted_risk, marked_false_positive, detected, effective_state,
  effective_severity,
}

-- `EXISTS (SELECT 1 FROM findings WHERE finding_id = l.id AND scan_id = previous)`
unfoldable pub observed_in : List Occurrence → ℕ → Option ℕ → Bool
observed_in findings lifecycle none = false
observed_in findings lifecycle (some scan) =
    any (λ f. not (distinct_from f.finding_id (some lifecycle)) && f.scan_id == scan) findings

-- The CASE of `status`: `l` is the row before the update, so its `last_covering_scan` is
-- `prev_covering`.
unfoldable pub status_of : List Occurrence → ℕ → LifecycleRow → Option DigestStatus
unfolding observed_in
status_of findings scan l =
    if not (distinct_from l.first_seen_scan (some scan))
    then some DigestStatus.new
    else if not (distinct_from l.last_seen_scan (some scan))
        && is_some l.last_covering_scan
        && not (observed_in findings l.id l.last_covering_scan)
    then some DigestStatus.changed
    else if distinct_from l.last_seen_scan (some scan)
        && is_some l.last_covering_scan
        && observed_in findings l.id l.last_covering_scan
    then some DigestStatus.fixed
    else none

module _ (lower : String → String) where
  unfoldable pub severity_of : LifecycleRow → Severity
  severity_of l =
      let s = lower (effective_severity l) in
      if str_eq s "critical"
      then Severity.critical
      else if str_eq s "high"
      then Severity.high
      else if str_eq s "medium"
      then Severity.medium
      else if str_eq s "low"
      then Severity.low
      else if str_eq s "info"
      then Severity.info
      else Severity.unknown

abbrev pub rank : Severity → ℕ
rank Severity.info = 0
rank Severity.low = 1
rank Severity.medium = 2
rank Severity.high = 3
rank Severity.critical = 4
rank Severity.unknown = 4

-- The floor's CASE, whose ELSE is 0.
unfoldable pub floor_rank : String → ℕ
floor_rank s =
    if str_eq s "info"
    then 0
    else if str_eq s "low"
    then 1
    else if str_eq s "medium"
    then 2
    else if str_eq s "high"
    then 3
    else if str_eq s "critical"
    then 4
    else 0

-- `effective NOT IN ('accepted', 'false_positive')`
abbrev pub mails_state : EffectiveState → Bool
mails_state accepted_risk = false
mails_state marked_false_positive = false
mails_state (detected d) = true

-- `COALESCE(cs.notify_min_severity, '')`, and the comparison.
reaches_floor : Option String → Severity → Bool
unfolding floor_rank
reaches_floor min s =
    let floor = Option.get_or min "" in str_eq floor "" || leb (floor_rank floor) (rank s)

-- One row of `mailed`, if this row gives one.
mailed_status : Bool → Option DigestStatus → Option DigestStatus
mailed_status true status = status
mailed_status false status = none

describe : LifecycleRow → Severity → DigestStatus → DigestFinding
describe l s status = record {
  id = l.id;
  status = status;
  severity = s;
  template_id = l.template_id;
  name = l.observed.name;
  host = l.observed.host;
  matched_at = l.observed.matched_at;
}

module _ (lower : String → String) where
  unfoldable pub mailed : List Occurrence → ScanRow → ℕ → LifecycleRow → Option DigestFinding
  unfolding mailed_status describe reaches_floor status_of severity_of
  mailed findings cs now l =
      let s = severity_of lower l in
      Option.map (describe l s) (
        mailed_status
          (mails_state (effective_state l now) && reaches_floor cs.notify_min_severity s)
          (status_of findings cs.id l))

abbrev pub is_status : DigestStatus → DigestStatus → Bool
is_status DigestStatus.new DigestStatus.new = true
is_status DigestStatus.changed DigestStatus.changed = true
is_status DigestStatus.fixed DigestStatus.fixed = true
is_status _ _ = false

abbrev no_counts : SeverityCounts
no_counts = record { critical = 0; high = 0; medium = 0; low = 0; info = 0; unknown = 0 }

unfoldable pub tally : Severity → SeverityCounts → SeverityCounts
tally Severity.critical c = record c { critical = c.critical + 1 }
tally Severity.high c = record c { high = c.high + 1 }
tally Severity.medium c = record c { medium = c.medium + 1 }
tally Severity.low c = record c { low = c.low + 1 }
tally Severity.info c = record c { info = c.info + 1 }
tally Severity.unknown c = record c { unknown = c.unknown + 1 }

-- `count(*) FILTER (WHERE status = … AND severity = …)`, for the six severities at once.
unfoldable pub counts : DigestStatus → List DigestFinding → SeverityCounts
unfolding tally
counts status [] = no_counts
counts status (f ∷ fs) =
    let rest = counts status fs in if is_status f.status status then tally f.severity rest else rest

-- `ORDER BY status, severity, id`: the texts' order.
abbrev status_text : DigestStatus → ℕ
status_text DigestStatus.changed = 0
status_text DigestStatus.fixed = 1
status_text DigestStatus.new = 2

abbrev severity_text : Severity → ℕ
severity_text Severity.critical = 0
severity_text Severity.high = 1
severity_text Severity.info = 2
severity_text Severity.low = 3
severity_text Severity.medium = 4
severity_text Severity.unknown = 5

unfoldable pub sorts_before : DigestFinding → DigestFinding → Bool
sorts_before a b =
    ltb (status_text a.status) (status_text b.status)
    || (status_text a.status == status_text b.status)
      && (ltb (severity_text a.severity) (severity_text b.severity)
          || (severity_text a.severity == severity_text b.severity) && leb a.id b.id)

unfoldable pub place : DigestFinding → List DigestFinding → List DigestFinding
unfolding sorts_before
place a [] = a ∷ []
place a (b ∷ bs) = if sorts_before a b then a ∷ b ∷ bs else b ∷ place a bs

unfoldable pub in_order : List DigestFinding → List DigestFinding
unfolding place
in_order [] = []
in_order (a ∷ as_) = place a (in_order as_)

unfoldable pub digest_of : List DigestFinding → Digest
unfolding counts in_order
digest_of fs = record {
  new = counts DigestStatus.new fs;
  changed = counts DigestStatus.changed fs;
  fixed = counts DigestStatus.fixed fs;
  findings = in_order fs;
}
