-- ===== src/Runner/Jobs.antt =====
-- A job under any calls: a cancellation that was accepted wins.
use nuclei_security_center.Common.{
  ℕ, String, ◌≡◌, List, [], ◌∷◌, Option, true, false, arith, is_some, if◌then◌else◌,
}
use nuclei_security_center.Store.Rows.{EndpointCoverage}
use nuclei_security_center.Orchestrator.Dispatch.{cancelled, is_terminal}
use nuclei_security_center.Runner.{
  Job, new_job, cancel, fail, finish_complete, finish, set_coverage, is_running, is_cancelled,
}

-- What happens to a job: a request to cancel it, and what `run` reports of it.
pub data Event : Type 0 where
  on_cancel : Event
  on_fail : String → ℕ → Event
  on_complete : ℕ → ℕ → Event
  on_coverage : Option (List EndpointCoverage) → String → Event

unfoldable pub event : Event → Job → Job
event on_cancel j = (cancel j).0
event (on_fail e now) j = fail e now j
event (on_complete count now) j = finish_complete count now j
event (on_coverage endpoints warning) j = set_coverage endpoints warning j

unfoldable pub events : List Event → Job → Job
unfolding event
events [] j = j
events (e ∷ es) j = events es (event e j)

-- Before `finish`: a terminal state carries its time, no cancelled state is published, and a job
-- whose cancellation was accepted is still running.
pub record IsOpen (j : Job) : Type 0 where
  pub timed : is_terminal j.state ≡ is_some j.finished_at
  pub uncancelled : is_cancelled j.state ≡ false
  pub waiting : (if j.cancel_requested then is_running j.state else true) ≡ true
  pub unclosed : j.closed ≡ false

event-IsOpen : (e : Event) (j : Job) → IsOpen j → IsOpen (event e j)
unfolding event cancel fail finish_complete set_coverage is_terminal
event-IsOpen on_cancel j h = ground arith
event-IsOpen (on_fail e now) j h = ground arith
event-IsOpen (on_complete count now) j h = ground arith
event-IsOpen (on_coverage endpoints warning) j h = ground arith

events-IsOpen_from : (es : List Event) (j : Job) → IsOpen j → IsOpen (events es j)
unfolding events
events-IsOpen_from [] j h = h
events-IsOpen_from (e ∷ es) j h = events-IsOpen_from es (event e j) (event-IsOpen e j h)

-- From its start, whatever is asked of a job and reported of it in whatever order, until `finish` it
-- carries an end time exactly if its state is terminal, it is never seen as cancelled, and it is
-- still running if a request to cancel it was accepted.
pub events-IsOpen : (es : List Event) → IsOpen (events es new_job)
unfolding is_terminal
events-IsOpen es = events-IsOpen_from es new_job (ground arith)

event-requested :
    (e : Event) (j : Job) → j.cancel_requested ≡ true → (event e j).cancel_requested ≡ true
unfolding event cancel fail finish_complete set_coverage
event-requested on_cancel j h = ground arith
event-requested (on_fail e now) j h = ground arith
event-requested (on_complete count now) j h = ground arith
event-requested (on_coverage endpoints warning) j h = ground arith

events-requested :
    (es : List Event) (j : Job) → j.cancel_requested ≡ true → (events es j).cancel_requested ≡ true
unfolding events
events-requested [] j h = h
events-requested (e ∷ es) j h = events-requested es (event e j) (event-requested e j h)

cancel-requested : (j : Job) → (cancel j).1 ≡ true → (cancel j).0.cancel_requested ≡ true
unfolding cancel
cancel-requested j h = ground arith

finish-cancelled :
    (now : ℕ) (j : Job)
    → j.cancel_requested ≡ true
    → ((finish now j).state ≡ cancelled) × ((finish now j).closed ≡ true)
unfolding finish
finish-cancelled now j h = ground arith

-- If a request to cancel a job is accepted, the job ends as cancelled and closed, whatever happened
-- to it before and whatever `run` reports of it afterwards, a failure or a completion included.
pub cancel_wins :
    (before after : List Event) (now : ℕ)
    → (cancel (events before new_job)).1 ≡ true
    → ((finish now (events after (cancel (events before new_job)).0)).state ≡ cancelled)
      × ((finish now (events after (cancel (events before new_job)).0)).closed ≡ true)
cancel_wins before after now h =
    finish-cancelled now _ (events-requested after _ (cancel-requested (events before new_job) h))
