-- ===== src/Orchestrator/Submit.antt =====
-- `Submit` and `selectScanNode` of internal/backend/orchestrator.go, with `effectiveMaxConcurrentScans`
-- of internal/backend/nodes.go: the choice of a node, its admission slot, and the scan's row. What the
-- health monitor knows and what `CreateScan` answers are arguments.
use nuclei_security_center.Common.{
  String, ◌+◌, ◌≡◌, refl, ap, eq_iff, Option, none, some, Bool, true, false, str_eq, if◌then◌else◌,
  arith,
}
use nuclei_security_center.Common.Int.{ℤ, pos, is_zero}
use nuclei_security_center.Admission.Node.{default_max_concurrent_scans}
use nuclei_security_center.Admission.Backend.{
  ScanAdmission, AdmissionError, active, acquire, release,
}
use nuclei_security_center.Admission.Backend.Laws.{active-acquire, acquire-refused, release-acquire}
use nuclei_security_center.Nodes.{ScannerNode, Selected, selected, no_node_for_target, spans}

pub data SubmitError : Type 0 where
  not_selected : Selected → SubmitError
  unhealthy : String → SubmitError
  not_admitted : AdmissionError → SubmitError
  not_created : SubmitError

-- A scan that runs on a node, or an error.
pub data Submitted : Type 0 where
  started : ScannerNode → String → Submitted
  rejected : SubmitError → Submitted

-- `value == 0`
unfoldable pub effective_max_concurrent_scans : ℤ → ℤ
effective_max_concurrent_scans value =
    if is_zero value then pos default_max_concurrent_scans else value

-- The row, or the slot given back.
unfoldable pub create_row : ScanAdmission → ScannerNode → Option String → ScanAdmission × Submitted
create_row a n none = (release a n.id, rejected not_created)
create_row a n (some scan_id) = (a, started n scan_id)

module _ (created : Option String) where
  unfoldable pub admitted :
      ScannerNode → ScanAdmission × Option AdmissionError → ScanAdmission × Submitted
  unfolding create_row
  admitted n (a, none) = create_row a n created
  admitted n (a, some e) = (a, rejected (not_admitted e))

  -- A health that is not known counts as healthy.
  unfoldable pub submit_to : ScanAdmission → ScannerNode → Option Bool → ScanAdmission × Submitted
  unfolding admitted effective_max_concurrent_scans
  submit_to a n (some false) = (a, rejected (unhealthy n.name))
  submit_to a n (some true) =
      admitted n (acquire a n.id (effective_max_concurrent_scans n.max_concurrent_scans))
  submit_to a n none =
      admitted n (acquire a n.id (effective_max_concurrent_scans n.max_concurrent_scans))

  unfoldable pub submit :
      (String → Option Bool) → ScanAdmission → Selected → ScanAdmission × Submitted
  unfolding submit_to
  submit health a no_node_for_target = (a, rejected (not_selected no_node_for_target))
  submit health a (spans m n) = (a, rejected (not_selected (spans m n)))
  submit health a (selected n) = submit_to a n (health n.id)

-- Whether the scan was started on the node.
abbrev pub runs_on : Submitted → String → Bool
runs_on (started n scan_id) m = str_eq n.id m
runs_on (rejected e) m = false

module _ (a : ScanAdmission) (n : ScannerNode) (m : String) where
  active-create_row :
      (b : ScanAdmission) (created : Option String)
      → active b m ≡ (if str_eq n.id m then active a m + 1 else active a m)
      → active (release b n.id) m ≡ active a m
      → active (create_row b n created).0 m
        ≡ (if runs_on (create_row b n created).1 m then active a m + 1 else active a m)
  unfolding create_row
  active-create_row b none h i = i
  active-create_row b (some scan_id) h i = h

  active-admitted :
      (created : Option String) (r : ScanAdmission × Option AdmissionError)
      → (r.1 ≡ none → active r.0 m ≡ (if str_eq n.id m then active a m + 1 else active a m))
      → (r.1 ≡ none → active (release r.0 n.id) m ≡ active a m)
      → ((e : AdmissionError) → r.1 ≡ some e → r.0 ≡ a)
      → active (admitted created n r).0 m
        ≡ (if runs_on (admitted created n r).1 m then active a m + 1 else active a m)
  unfolding admitted
  active-admitted created (b, none) h i k = active-create_row b created (h refl) (i refl)
  active-admitted created (b, some e) h i k = ap (λ c. active c m) (k e refl)

  -- The count of `m` behind an acquire at `n.id`, by the count of `m` alone.
  counted :
      (limit : ℤ)
      → (acquire a n.id limit).1 ≡ none
      → active (acquire a n.id limit).0 m ≡ (if str_eq n.id m then active a m + 1 else active a m)
  counted limit h = ground (arith, eq_iff n.id m, active-acquire a n.id m limit h)

  active-acquired :
      (created : Option String) (limit : ℤ)
      → active (admitted created n (acquire a n.id limit)).0 m ≡ (
          if runs_on (admitted created n (acquire a n.id limit)).1 m
          then active a m + 1
          else active a m)
  active-acquired created limit =
      active-admitted created (acquire a n.id limit) (counted limit)
        (release-acquire a n.id m limit) (acquire-refused a n.id limit)

  active-submit_to :
      (created : Option String) (known : Option Bool)
      → active (submit_to created a n known).0 m
        ≡ (if runs_on (submit_to created a n known).1 m then active a m + 1 else active a m)
  unfolding submit_to
  active-submit_to created (some false) = refl
  active-submit_to created (some true) = active-acquired created _
  active-submit_to created none = active-acquired created _

-- After a submission the count of a node is one more if the scan was started there, and the same if it
-- was started elsewhere or refused for whatever reason: no node, an unhealthy one, no slot, no row.
pub active-submit :
    (created : Option String) (health : String → Option Bool) (a : ScanAdmission) (s : Selected)
    (m : String)
    → active (submit created health a s).0 m
      ≡ (if runs_on (submit created health a s).1 m then active a m + 1 else active a m)
unfolding submit
active-submit created health a (selected n) m = active-submit_to a n m created (health n.id)
active-submit created health a no_node_for_target m = refl
active-submit created health a (spans k n) m = refl
