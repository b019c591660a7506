-- ===== src/Runner.antt =====
-- The jobs of a scanner node, internal/scanner/runner.go: a job's status under its lock, the
-- registry of jobs, `DeleteScan` and `cleanupExpired`. Each function is what the code does between
-- taking a lock and giving it back. Times are seconds.
pub mod Jobs
pub mod Registry
use nuclei_security_center.Common.{
  ℕ, ◌+◌, ◌-◌, String, List, [], ◌∷◌, Option, none, some, Bool, true, false, ltb, ◌&&◌, ◌||◌, not,
  length, if◌then◌else◌, str_eq, concat, is_some,
}
use nuclei_security_center.Common.Dict.{Dict, lookup, insert, remove}
use nuclei_security_center.Store.Rows.{EndpointCoverage}
use nuclei_security_center.Orchestrator.Dispatch.{
  NodeState, running, complete, failed, cancelled, is_terminal,
}

-- `Start` sets the functions and the channel of a job, so none of them is nil.
-- `finished_at` is `none` for the zero time; `closed` says that the channel `done` is closed. The
-- slice `covered_endpoints` is `none` where it is nil.
pub record Job : Type 0 where
  pub state : NodeState
  pub error : String
  pub finding_count : ℕ
  pub covered_endpoints : Option (List EndpointCoverage)
  pub coverage_warning : String
  pub finished_at : Option ℕ
  pub cancel_requested : Bool
  pub closed : Bool

-- The job that `Start` registers.
abbrev pub new_job : Job
new_job = record {
  state = running;
  error = "";
  finding_count = 0;
  covered_endpoints = none;
  coverage_warning = "";
  finished_at = none;
  cancel_requested = false;
  closed = false;
}

abbrev pub is_running : NodeState → Bool
is_running running = true
is_running complete = false
is_running failed = false
is_running cancelled = false

abbrev pub is_cancelled : NodeState → Bool
is_cancelled running = false
is_cancelled complete = false
is_cancelled failed = false
is_cancelled cancelled = true

-- `Cancel` up to the call of the context's cancel function; the flag is its result.
unfoldable pub cancel : Job → Job × Bool
cancel j =
    if not (is_running j.state) || j.cancel_requested
    then (j, false)
    else (record j { cancel_requested = true }, true)

unfoldable pub fail : String → ℕ → Job → Job
fail e now j =
    if j.cancel_requested || is_cancelled j.state
    then j
    else record j { state = failed; error = e; finished_at = some now }

unfoldable pub finish_complete : ℕ → ℕ → Job → Job
finish_complete count now j =
    if j.cancel_requested || is_cancelled j.state
    then j
    else record j { state = complete; finding_count = count; finished_at = some now }

-- `finish`, which `run` defers.
unfoldable pub finish : ℕ → Job → Job
finish now j =
    if j.cancel_requested
    then record j { closed = true; state = cancelled; finished_at = some now }
    else record j { closed = true }

abbrev pub or_empty : Option (List EndpointCoverage) → List EndpointCoverage
or_empty none = []
or_empty (some es) = es

-- `append([]types.EndpointCoverage{}, endpoints...)` is never nil.
unfoldable pub set_coverage : Option (List EndpointCoverage) → String → Job → Job
set_coverage endpoints warning j = record j {
  covered_endpoints = some (or_empty endpoints);
  coverage_warning = warning;
}

unfoldable pub append_coverage_warning : String → String → String
append_coverage_warning existing warning =
    if str_eq existing "" then warning else concat existing (concat "; " warning)

pub record CoverageResult : Type 0 where
  pub endpoints : Option (List EndpointCoverage)
  pub warning : String

-- `coverage.Endpoints != nil && len(coverage.Endpoints) == 0`
abbrev pub is_known_zero : Option (List EndpointCoverage) → Bool
is_known_zero none = false
is_known_zero (some []) = true
is_known_zero (some (e ∷ es)) = false

-- `message` is the formatted warning for the number of findings.
unfoldable pub validate_coverage_against_findings :
    (ℕ → String) → CoverageResult → ℕ → CoverageResult
unfolding append_coverage_warning
validate_coverage_against_findings message coverage count =
    if ltb 0 count && is_known_zero coverage.endpoints
    then record {
      endpoints = none;
      warning = append_coverage_warning coverage.warning (message count);
    }
    else coverage

unfoldable pub terminal_and_finished : Job → Bool
unfolding is_terminal
terminal_and_finished j =
    if not (is_terminal j.state) || not (is_some j.finished_at)
    then false
    else if not (is_cancelled j.state)
    then true
    else j.closed

pub data DeleteError : Type 0 where
  scan_not_found scan_not_terminal : DeleteError

-- The tests behind the lookup.
unfoldable pub delete_found : String → Dict Job → Option Job → Dict Job × Option DeleteError
unfolding terminal_and_finished remove
delete_found id scans none = (scans, some scan_not_found)
delete_found id scans (some j) =
    if terminal_and_finished j then (remove id scans, none) else (scans, some scan_not_terminal)

-- `DeleteScan` up to the removal of the directory.
unfoldable pub delete_scan : String → Dict Job → Dict Job × Option DeleteError
unfolding delete_found lookup
delete_scan id scans = delete_found id scans (lookup id scans)

abbrev pub scan_retention : ℕ
scan_retention = 3600

abbrev pub waited : Option ℕ → ℕ → Bool
waited none now = false
waited (some t) now = not (ltb (now - t) scan_retention)

-- `cleanupExpired` takes a job if it is terminal and its retention is over.
unfoldable pub is_expired : ℕ → Job → Bool
unfolding terminal_and_finished
is_expired now j = terminal_and_finished j && waited j.finished_at now

unfoldable pub cleanup_expired : ℕ → Dict Job → Dict Job
unfolding is_expired
cleanup_expired now [] = []
cleanup_expired now ((id, j) ∷ scans) =
    let rest = cleanup_expired now scans in if is_expired now j then rest else (id, j) ∷ rest
