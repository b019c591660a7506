-- ===== src/Scheduler/Settles.antt =====
-- What a tick leaves behind.
use nuclei_security_center.Common.{
  ℕ, ◌≡◌, String, Bool, true, false, Option, some, List, [], ◌∷◌, All, str_eq, Chars, arith,
  Bool-cases, inl, inr,
}
use nuclei_security_center.Scheduler.{
  Schedule, is_due, set_schedule, recorded, Dispatched, no_capacity, submitted, next_of, dispatch,
}

-- No row with the id is due.
abbrev pub Settled : ℕ → String → List Schedule → Type 0
Settled now id rows = All (λ r. str_eq r.id id ≡ true → is_due now r ≡ false) rows

-- The schedule's submission is not refused for capacity.
abbrev pub admitted : Dispatched → Bool
admitted no_capacity = false
admitted _ = true

-- Every enabled row with the id is due.
abbrev pub Due : ℕ → String → List Schedule → Type 0
Due now id rows = All (λ r. str_eq r.id id ≡ true → r.enabled ≡ true → is_due now r ≡ true) rows

recorded_zero :
    (scan_id : String) (now later : ℕ) (r : Schedule)
    → r.enabled ≡ true
    → is_due later (recorded scan_id now 0 r) ≡ true
unfolding is_due
recorded_zero scan_id now later r h = ground (arith, h)

set_schedule-Due :
    (scan_id id : String) (now later : ℕ) (rows : List Schedule)
    → Due later id (set_schedule id (recorded scan_id now 0) rows)
unfolding set_schedule
set_schedule-Due scan_id id now later [] = tt
set_schedule-Due scan_id id now later (r ∷ rows) = elim (Bool-cases (str_eq r.id id)) [
  | inl p ↦
      rw (set_schedule, p)
        (λ q e. recorded_zero scan_id now later r e, set_schedule-Due scan_id id now later rows)
  | inr p ↦
      rw (set_schedule, p) (λ q e. ground (arith, p, q), set_schedule-Due scan_id id now later rows)
]

module _ {ℓ} {Location : Type ℓ} (utc : Location) (load_location : Chars → Option Location)
    (next_run : Chars → ℕ → Location → Option ℕ) where
  -- If the cron package finds no next fire time, which it reports by the zero time, the dispatch that
  -- has submitted a scan leaves the schedule due at every later time.
  pub dispatch_zero-Due :
      (submit : Schedule → Dispatched) (now later : ℕ) (sc : Schedule) (scan_id : String)
      (rows : List Schedule)
      → next_of utc load_location next_run sc now ≡ some 0
      → submit sc ≡ submitted scan_id
      → Due later sc.id (dispatch utc load_location next_run submit now sc rows)
  unfolding dispatch
  dispatch_zero-Due submit now later sc scan_id rows e s =
      rw (dispatch, e, s) (set_schedule-Due scan_id sc.id now later rows)
