-- ===== src/Scheduler.antt =====
-- The ticker that dispatches due schedules, internal/backend/scheduler.go, with its statements of
-- internal/store/schedules.go, which succeed. Instants are natural numbers, and 0 is Go's zero time.
-- The cron package, `time.LoadLocation` and what the submission of a scan answers are parameters.
pub mod Settles
use nuclei_security_center.Common.{
  ℕ, String, Bool, true, false, ◌&&◌, ◌||◌, Option, none, some, List, [], ◌∷◌, str_eq,
  if◌then◌else◌, Chars, codes, length, take, leb, ltb,
}
use nuclei_security_center.Login.Clients.{trim_space}
use nuclei_security_center.Auth.{equal_fold}

pub record Schedule : Type 0 where
  pub id : String
  pub name : String
  pub scan_policy_id : String
  pub target_id : String
  pub cron : Chars
  pub timezone : Chars
  pub enabled : Bool
  pub next_run_at : Option ℕ
  pub last_run_at : Option ℕ
  pub last_scan_id : Option String

abbrev pub arrived : ℕ → Option ℕ → Bool
arrived now none = false
arrived now (some t) = leb t now

-- `enabled AND next_run_at IS NOT NULL AND next_run_at <= $1`
unfoldable pub is_due : ℕ → Schedule → Bool
is_due now sc = sc.enabled && arrived now sc.next_run_at

abbrev earlier : Option ℕ → Option ℕ → Bool
earlier none o = false
earlier (some a) none = true
earlier (some a) (some b) = ltb a b

-- `ORDER BY next_run_at`
unfoldable pub insert_by_next : Schedule → List Schedule → List Schedule
insert_by_next sc [] = sc ∷ []
insert_by_next sc (t ∷ ts) =
    let rest = insert_by_next sc ts in
    if earlier t.next_run_at sc.next_run_at then t ∷ rest else sc ∷ t ∷ ts

unfoldable pub due_schedules : ℕ → List Schedule → List Schedule
unfolding is_due insert_by_next
due_schedules now [] = []
due_schedules now (sc ∷ rows) =
    let rest = due_schedules now rows in if is_due now sc then insert_by_next sc rest else rest

unfoldable pub cap_due_schedules : List Schedule → ℕ → List Schedule
cap_due_schedules due max = if ltb max (length due) then take max due else due

abbrev pub max_dispatch_per_tick : ℕ
max_dispatch_per_tick = 20

-- A statement on the row with an id.
unfoldable pub set_schedule : String → (Schedule → Schedule) → List Schedule → List Schedule
set_schedule id f [] = []
set_schedule id f (r ∷ rows) =
    let rest = set_schedule id f rows in if str_eq r.id id then f r ∷ rest else r ∷ rest

abbrev is_blank : Chars → Bool
is_blank [] = true
is_blank (c ∷ s) = false

-- UpdateSchedule with the schedule as it was read, disabled; its errors are those of a statement that
-- fails.
abbrev pub disabled : Schedule → Schedule → Schedule
disabled sc r = record r {
  name = sc.name;
  scan_policy_id = sc.scan_policy_id;
  target_id = sc.target_id;
  cron = sc.cron;
  timezone = if is_blank sc.timezone then codes "UTC" else sc.timezone;
  enabled = false;
  next_run_at = none;
}

abbrev null_str : String → Option String
null_str s = if str_eq s "" then none else some s

-- RecordScheduleRun
abbrev pub recorded : String → ℕ → ℕ → Schedule → Schedule
recorded scan_id now next r = record r {
  last_run_at = some now;
  last_scan_id = null_str scan_id;
  next_run_at = some next;
}

-- What comes of resolving the policy and submitting the scan.
pub data Dispatched : Type 0 where
  unresolved no_capacity submit_failed : Dispatched
  submitted : String → Dispatched

module _ {ℓ} {Location : Type ℓ} (utc : Location) (load_location : Chars → Option Location)
    (next_run : Chars → ℕ → Location → Option ℕ) where
  unfoldable pub load_timezone : Chars → Option Location
  unfolding trim_space equal_fold
  load_timezone s = elim (trim_space s) [
    | [] ↦ some utc
    | c ∷ t ↦ if equal_fold (c ∷ t) (codes "Local") then none else load_location (c ∷ t)
  ]

  -- The next fire time, or the error of the time zone or of the cron expression.
  unfoldable pub next_of : Schedule → ℕ → Option ℕ
  unfolding load_timezone
  next_of sc now = elim (load_timezone sc.timezone) [
    | none ↦ none
    | some loc ↦ next_run sc.cron now loc
  ]

  abbrev pub after_submit : Schedule → ℕ → ℕ → Dispatched → List Schedule → List Schedule
  after_submit sc now next unresolved rows = set_schedule sc.id (recorded "" now next) rows
  after_submit sc now next no_capacity rows = rows
  after_submit sc now next submit_failed rows = set_schedule sc.id (recorded "" now next) rows
  after_submit sc now next (submitted scan_id) rows =
      set_schedule sc.id (recorded scan_id now next) rows

  unfoldable pub dispatch : (Schedule → Dispatched) → ℕ → Schedule → List Schedule → List Schedule
  unfolding next_of set_schedule
  dispatch submit now sc rows = elim (next_of sc now) [
    | none ↦ set_schedule sc.id (disabled sc) rows
    | some next ↦ after_submit sc now next (submit sc) rows
  ]

  unfoldable pub dispatch_all :
      (Schedule → Dispatched) → ℕ → List Schedule → List Schedule → List Schedule
  unfolding dispatch
  dispatch_all submit now [] rows = rows
  dispatch_all submit now (sc ∷ due) rows =
      dispatch_all submit now due (dispatch submit now sc rows)

  unfoldable pub tick : (Schedule → Dispatched) → ℕ → List Schedule → List Schedule
  unfolding dispatch_all due_schedules cap_due_schedules
  tick submit now rows =
      dispatch_all submit now (cap_due_schedules (due_schedules now rows) max_dispatch_per_tick)
        rows
