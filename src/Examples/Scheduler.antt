-- ===== src/Examples/Scheduler.antt =====
-- Runs of the ticker.
use nuclei_security_center.Common.{ℕ, ◌+◌, refl, true, Option, none, some, [], ◌∷◌, Chars, codes}
use nuclei_security_center.Login.Clients.{is_space, trim_left, trim_space}
use nuclei_security_center.Auth.{equal_fold}
use nuclei_security_center.Scheduler.{
  Schedule, Dispatched, submitted, dispatch, load_timezone, next_of,
}
use nuclei_security_center.Scheduler.Settles.{Due, dispatch_zero-Due}

abbrev nightly : Schedule
nightly = record {
  id = "1";
  name = "nightly";
  scan_policy_id = "p";
  target_id = "t";
  cron = codes "0 0 * * *";
  timezone = [];
  enabled = true;
  next_run_at = some 3;
  last_run_at = none;
  last_scan_id = none;
}

abbrev next_minute : Chars → ℕ → ℕ → Option ℕ
next_minute cron now zone = some (now + 1)

abbrev never : Chars → ℕ → ℕ → Option ℕ
never cron now zone = some 0

abbrev accept : Schedule → Dispatched
accept sc = submitted "7"

dispatch_zero-Due_example : Due 9 "1" (dispatch 0 (λ s. none) never accept 5 nightly (nightly ∷ []))
unfolding is_space trim_left trim_space equal_fold load_timezone next_of
dispatch_zero-Due_example =
    dispatch_zero-Due 0 (λ s. none) never accept 5 9 nightly "7" (nightly ∷ []) refl refl
