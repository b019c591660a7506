-- ===== src/Orchestrator/Dispatch/Waits.antt =====
-- The waits of a dispatch: the backoff, the poll and the retried write.
use nuclei_security_center.Common.{
  String, ℕ, zero, suc, ◌+◌, ◌/◌, ◌≤◌, ◌≡◌, refl, List, [], ◌∷◌, Option, ◌++◌, none, some, Bool,
  true, false, ltb, leb, length, if◌then◌else◌, arith, All,
}
use nuclei_security_center.Common.Int.{ℤ, pos, negsuc}
use nuclei_security_center.Orchestrator.Dispatch.{
  Options, Discovery, node_runtime_budget, node_timeouts, or_default, timeouts_of, discovery_budget,
  Started, accepted, at_capacity, refused, started, start_from, start_scan_with_retry,
  initial_delay, max_delay, next_delay, NodeState, running, complete, failed, cancelled, Poll,
  interrupted, poll_error, status, done, over_budget, is_terminal, poll_rounds, poll_to_done,
  retry_write,
}

-- The time limits add up.
unfoldable pub sum : List ℕ → ℕ
sum [] = 0
sum (n ∷ ns) = n + sum ns

or_default_pos : (t : ℤ) (d : ℕ) → 1 ≤ d → 1 ≤ or_default t d
unfolding or_default
or_default_pos (pos zero) d h = h
or_default_pos (pos (suc n)) d h = omega arith
or_default_pos (negsuc n) d h = h

stages :
    (nuclei : ℕ) (d : Option Discovery) → nuclei + discovery_budget d ≡ sum (timeouts_of nuclei d)
unfolding discovery_budget timeouts_of sum
stages nuclei none = omega arith
stages nuclei (some d) = ground arith

-- The backend's budget for a scan is exactly the sum of the timeouts that the node gives to the
-- stages it runs, defaults included, and it is never 0.
pub node_runtime_budget-eq-sum :
    (o : Options) → (node_runtime_budget o ≡ sum (node_timeouts o)) × (1 ≤ node_runtime_budget o)
unfolding node_runtime_budget node_timeouts
node_runtime_budget-eq-sum o = (
  stages (or_default o.timeout_sec 1800) o.discovery,
  omega (arith, or_default_pos o.timeout_sec 1800 (omega arith)),
)

-- Between the first delay and the last.
abbrev pub IsDelay : ℕ → Type 0
IsDelay d = (initial_delay ≤ d) × (d ≤ max_delay)

next_delay-IsDelay : (d : ℕ) → IsDelay d → IsDelay (next_delay d)
unfolding next_delay
next_delay-IsDelay d h = ground arith

start_from-delays :
    (d : ℕ) (replies : List Started) → IsDelay d → All IsDelay (start_from d replies).1
unfolding start_from
start_from-delays d [] h = tt
start_from-delays d (accepted id ∷ replies) h = tt
start_from-delays d (refused ∷ replies) h = tt
start_from-delays d (at_capacity true ∷ replies) h = (h, tt)
start_from-delays d (at_capacity false ∷ replies) h =
    (h, start_from-delays (next_delay d) replies (next_delay-IsDelay d h))

start_from-waits :
    (d : ℕ) (replies : List Started) → length (start_from d replies).1 ≤ length replies
unfolding start_from
start_from-waits d [] = omega arith
start_from-waits d (accepted id ∷ replies) = omega arith
start_from-waits d (refused ∷ replies) = omega arith
start_from-waits d (at_capacity true ∷ replies) = omega arith
start_from-waits d (at_capacity false ∷ replies) =
    omega (arith, start_from-waits (next_delay d) replies)

-- However the node answers, every wait between two attempts is of 1 to 4 seconds, and there are at
-- most as many waits as there are answers.
pub start_scan_with_retry-delays :
    (replies : List Started)
    → All IsDelay (start_scan_with_retry replies).1
      × ((length (start_scan_with_retry replies).1) ≤ length replies)
unfolding start_scan_with_retry
start_scan_with_retry-delays replies = (
  start_from-delays initial_delay replies (omega arith, omega arith),
  start_from-waits initial_delay replies,
)

-- Refusals of the node for capacity, without an expired context.
abbrev pub full : ℕ → List Started
full zero = []
full (suc n) = at_capacity false ∷ full n

start_from-full :
    (n d : ℕ) (id : String) (replies : List Started)
    → (start_from d (full n ++ accepted id ∷ replies)).0 ≡ started id
unfolding start_from
start_from-full zero d id replies = refl
start_from-full (suc n) d id replies = start_from-full n (next_delay d) id replies

full-waits :
    (n d : ℕ) (id : String) (replies : List Started)
    → length (start_from d (full n ++ accepted id ∷ replies)).1 ≡ n
unfolding start_from
full-waits zero d id replies = refl
full-waits (suc n) d id replies = omega (arith, full-waits n (next_delay d) id replies)

-- A node that is full any number of times and then accepts has its scan started, and the waits are
-- as many as the refusals: a full node alone never fails the scan.
pub start_scan_with_retry-accepted :
    (n : ℕ) (id : String) (replies : List Started)
    → ((start_scan_with_retry (full n ++ accepted id ∷ replies)).0 ≡ started id)
      × (length (start_scan_with_retry (full n ++ accepted id ∷ replies)).1 ≡ n)
unfolding start_scan_with_retry
start_scan_with_retry-accepted n id replies =
    (start_from-full n initial_delay id replies, full-waits n initial_delay id replies)

-- Rounds that do not end the poll: a failed request or a scan that is still running.
abbrev pub IsQuiet : Poll → Type 0
IsQuiet interrupted = ⊥
IsQuiet poll_error = Unit
IsQuiet (status running) = Unit
IsQuiet (status complete) = ⊥
IsQuiet (status failed) = ⊥
IsQuiet (status cancelled) = ⊥

poll_rounds-quiet :
    (n : ℕ) (quiet : List Poll) (s : NodeState) (polls : List Poll)
    → All IsQuiet quiet
    → is_terminal s ≡ true
    → poll_rounds n (quiet ++ status s ∷ polls)
      ≡ (if ltb (length quiet) n then done s else over_budget)
unfolding poll_rounds is_terminal
poll_rounds-quiet zero quiet s polls h t = ground arith
poll_rounds-quiet (suc n) [] s polls h t = rw t (ground arith)
poll_rounds-quiet (suc n) (poll_error ∷ quiet) s polls h t =
    ground (arith, poll_rounds-quiet n quiet s polls h.1 t)
poll_rounds-quiet (suc n) (status running ∷ quiet) s polls h t =
    ground (arith, poll_rounds-quiet n quiet s polls h.1 t)
poll_rounds-quiet (suc n) (interrupted ∷ quiet) s polls h t = elim h.0 [ ]
poll_rounds-quiet (suc n) (status complete ∷ quiet) s polls h t = elim h.0 [ ]
poll_rounds-quiet (suc n) (status failed ∷ quiet) s polls h t = elim h.0 [ ]
poll_rounds-quiet (suc n) (status cancelled ∷ quiet) s polls h t = elim h.0 [ ]

-- If the rounds before a terminal status are failed requests or running statuses, the poll returns
-- that status exactly when the rounds fit the budget, and else reports that the budget is used up.
pub poll_to_done-first_terminal :
    (interval budget : ℕ) (quiet : List Poll) (s : NodeState) (polls : List Poll)
    → All IsQuiet quiet
    → is_terminal s ≡ true
    → poll_to_done interval budget (quiet ++ status s ∷ polls)
      ≡ (if ltb (length quiet) (budget / interval) then done s else over_budget)
unfolding poll_to_done
poll_to_done-first_terminal interval budget quiet s polls h t =
    poll_rounds-quiet (budget / interval) quiet s polls h t

-- The writes fail `n` times and then succeed, the context alive all the while.
abbrev pub failing : ℕ → List (Bool × Bool)
failing zero = (true, false) ∷ []
failing (suc n) = (false, false) ∷ failing n

-- A write that would succeed after `n` failures succeeds exactly if it has more than `n` attempts,
-- and no more attempts are made than that takes.
pub retry_write-exact :
    (attempts n : ℕ)
    → retry_write (suc attempts) (failing n)
      ≡ (if leb n attempts then (true, suc n) else (false, suc attempts))
unfolding retry_write
retry_write-exact attempts zero = ground arith
retry_write-exact zero (suc n) = ground arith
retry_write-exact (suc attempts) (suc n) = ground (arith, retry_write-exact attempts n)
