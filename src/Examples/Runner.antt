-- ===== src/Examples/Runner.antt =====
-- Runs of a node's jobs.
use nuclei_security_center.Common.{◌≡◌, refl, true, some, none, [], ◌∷◌}
use nuclei_security_center.Common.Dict.{Dict}
use nuclei_security_center.Orchestrator.Dispatch.{complete, cancelled}
use nuclei_security_center.Runner.{
  Job, new_job, cancel, finish, set_coverage, validate_coverage_against_findings,
}
use nuclei_security_center.Runner.Jobs.{
  IsOpen, on_cancel, on_complete, on_coverage, events, events-IsOpen, cancel_wins,
}

events-IsOpen_example :
    IsOpen (events (on_coverage none "" ∷ on_cancel ∷ on_complete 3 9 ∷ []) new_job)
events-IsOpen_example = events-IsOpen (on_coverage none "" ∷ on_cancel ∷ on_complete 3 9 ∷ [])

-- The cancellation comes before the node's completion.
cancel_wins_example :
    ((finish 10 (events (on_complete 3 9 ∷ []) (cancel (events [] new_job)).0)).state ≡ cancelled)
    × ((finish 10 (events (on_complete 3 9 ∷ []) (cancel (events [] new_job)).0)).closed ≡ true)
unfolding cancel events
cancel_wins_example = cancel_wins [] (on_complete 3 9 ∷ []) 10 refl

abbrev ended : Job
ended = record new_job { state = complete; finished_at = some 100; closed = true }

abbrev jobs : Dict Job
jobs = ("a", ended) ∷ ("b", new_job) ∷ []

-- Coverage that the findings contradict is made unavailable, and recorded as known to be empty.
contradicted_test :
    (set_coverage
      (validate_coverage_against_findings
        (λ n. "unavailable")
        (record { endpoints = some []; warning = "" })
        4).endpoints
      ""
      new_job).covered_endpoints
    ≡ some []
unfolding set_coverage validate_coverage_against_findings
contradicted_test = refl
