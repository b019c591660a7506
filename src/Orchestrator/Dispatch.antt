-- ===== src/Orchestrator/Dispatch.antt =====
-- The calls around a scan of internal/backend/orchestrator.go: `nodeRuntimeBudget`,
-- `startScanWithRetry`, `pollToDone`, `retryWrite` and `Submit`. Times are seconds. What the node, the
-- database and the contexts answer is the list of answers, in order; a list that ends stands for an
-- expired context.
pub mod Waits
use nuclei_security_center.Common.{
  ℕ, zero, suc, ◌+◌, ◌*◌, ◌/◌, String, List, [], ◌∷◌, Option, none, some, Bool, true, false, ltb,
  leb, if◌then◌else◌, ◌||◌,
}
use nuclei_security_center.Common.Int.{ℤ, pos, negsuc}

pub record Discovery : Type 0 where
  pub enabled : Bool
  pub timeout_sec : ℤ

pub record Options : Type 0 where
  pub timeout_sec : ℤ
  pub discovery : Option Discovery

-- `time.Duration(t) * time.Second`, or the default if that is not positive.
unfoldable pub or_default : ℤ → ℕ → ℕ
or_default (pos zero) d = d
or_default (pos (suc n)) d = suc n
or_default (negsuc n) d = d

unfoldable pub discovery_budget : Option Discovery → ℕ
unfolding or_default
discovery_budget none = 0
discovery_budget (some d) = if d.enabled then or_default d.timeout_sec 300 else 0

unfoldable pub node_runtime_budget : Options → ℕ
unfolding discovery_budget or_default
node_runtime_budget o = or_default o.timeout_sec 1800 + discovery_budget o.discovery

-- The timeouts that `run` of internal/scanner/runner.go gives to its two stages.
unfoldable pub timeouts_of : ℕ → Option Discovery → List ℕ
unfolding or_default
timeouts_of nuclei none = nuclei ∷ []
timeouts_of nuclei (some d) =
    if d.enabled then or_default d.timeout_sec 300 ∷ nuclei ∷ [] else (nuclei ∷ [])

unfoldable pub node_timeouts : Options → List ℕ
unfolding timeouts_of or_default
node_timeouts o = timeouts_of (or_default o.timeout_sec 1800) o.discovery

-- What `client.StartScan` answers, with whether the context ends in the wait behind a refusal.
pub data Started : Type 0 where
  accepted : String → Started
  at_capacity : Bool → Started
  refused : Started

pub data StartResult : Type 0 where
  started : String → StartResult
  start_error : StartResult
  context_done : StartResult

abbrev pub initial_delay : ℕ
initial_delay = 1

abbrev pub max_delay : ℕ
max_delay = 4

unfoldable pub next_delay : ℕ → ℕ
next_delay delay =
    if ltb delay max_delay
    then (if ltb max_delay (delay * 2) then max_delay else delay * 2)
    else delay

-- The loop from a delay, with the delays that it waited.
unfoldable pub start_from : ℕ → List Started → StartResult × List ℕ
unfolding next_delay
start_from delay [] = (context_done, [])
start_from delay (accepted id ∷ replies) = (started id, [])
start_from delay (refused ∷ replies) = (start_error, [])
start_from delay (at_capacity true ∷ replies) = (context_done, delay ∷ [])
start_from delay (at_capacity false ∷ replies) =
    let rest = start_from (next_delay delay) replies in (rest.0, delay ∷ rest.1)

unfoldable pub start_scan_with_retry : List Started → StartResult × List ℕ
unfolding start_from
start_scan_with_retry = start_from initial_delay

-- The states a node reports.
pub data NodeState : Type 0 where
  running : NodeState
  complete : NodeState
  failed : NodeState
  cancelled : NodeState

-- One round of the poll: the context ends in the wait, the request fails, or a status arrives.
pub data Poll : Type 0 where
  interrupted : Poll
  poll_error : Poll
  status : NodeState → Poll

pub data PollResult : Type 0 where
  done : NodeState → PollResult
  poll_interrupted : PollResult
  over_budget : PollResult

unfoldable pub is_terminal : NodeState → Bool
is_terminal running = false
is_terminal complete = true
is_terminal failed = true
is_terminal cancelled = true

unfoldable pub poll_rounds : ℕ → List Poll → PollResult
unfolding is_terminal
poll_rounds zero polls = over_budget
poll_rounds (suc n) [] = poll_interrupted
poll_rounds (suc n) (interrupted ∷ polls) = poll_interrupted
poll_rounds (suc n) (poll_error ∷ polls) = poll_rounds n polls
poll_rounds (suc n) (status s ∷ polls) =
    let rest = poll_rounds n polls in if is_terminal s then done s else rest

-- `interval` is the orchestrator's poll interval.
unfoldable pub poll_to_done : ℕ → ℕ → List Poll → PollResult
unfolding poll_rounds
poll_to_done interval budget polls = poll_rounds (budget / interval) polls

-- `retryWrite`: each element is whether the call succeeds and whether the context ends in the wait
-- behind it. The result is whether the last call succeeded and how many were made.
unfoldable pub retry_write : ℕ → List (Bool × Bool) → Bool × ℕ
retry_write zero writes = (true, 0)
retry_write (suc n) [] = (false, 1)
retry_write (suc n) ((true, ctx) ∷ writes) = (true, 1)
retry_write (suc zero) ((false, ctx) ∷ writes) = (false, 1)
retry_write (suc (suc n)) ((false, true) ∷ writes) = (false, 1)
retry_write (suc (suc n)) ((false, false) ∷ writes) =
    let rest = retry_write (suc n) writes in (rest.0, suc rest.1)
