-- ===== src/Admission/Node.antt =====
-- `scanAdmission` of internal/scanner/admission.go. The mutex makes each method one step. A
-- requested limit is an `int` that a caller may send negative; the limits that are stored have
-- passed the range check, so they are natural numbers, and so is the counter.
pub mod Laws
use nuclei_security_center.Common.{
  ℕ, ◌+◌, ◌-◌, Bool, true, false, ◌||◌, Option, none, some, List, [], ◌∷◌, ltb, leb, if◌then◌else◌,
}
use nuclei_security_center.Common.Int.{ℤ, pos_part, is_neg, exceeds}

-- types.DefaultMaxConcurrentScans
abbrev pub default_max_concurrent_scans : ℕ
default_max_concurrent_scans = 20

-- types.MaxConcurrentScansCeiling
abbrev pub max_concurrent_scans_ceiling : ℕ
max_concurrent_scans_ceiling = 100

pub data AdmissionError : Type 0 where
  scan_capacity invalid_scan_capacity : AdmissionError

pub record ScanAdmission : Type 0 where
  pub fallback : ℕ
  pub limit : ℕ
  pub active : ℕ

unfoldable pub new_scan_admission : ℤ → ScanAdmission
new_scan_admission limit =
    let chosen =
      (if ltb (pos_part limit) 1 || exceeds limit max_concurrent_scans_ceiling
        then default_max_concurrent_scans
        else pos_part limit) in
    record { fallback = chosen; limit = chosen; active = 0 }

-- The limit that a valid request asks for.
unfoldable pub effective_limit : ScanAdmission → ℤ → ℕ
effective_limit a requested = if ltb 0 (pos_part requested) then pos_part requested else a.fallback

admit : ScanAdmission → ScanAdmission × Option AdmissionError
admit a =
    if leb a.limit a.active
    then (a, some scan_capacity)
    else (record a { active = a.active + 1 }, none)

-- A refusal for want of capacity has already stored the new limit.
unfoldable pub acquire : ScanAdmission → ℤ → ScanAdmission × Option AdmissionError
unfolding effective_limit admit
acquire a requested =
    if is_neg requested || exceeds requested max_concurrent_scans_ceiling
    then (a, some invalid_scan_capacity)
    else admit (record a { limit = effective_limit a requested })

unfoldable pub release : ScanAdmission → ScanAdmission
release a = if ltb 0 a.active then record a { active = a.active - 1 } else a

-- What callers do: ask for a slot with some limit, or give one back.
pub data Call : Type 0 where
  ask : ℤ → Call
  give_back : Call

-- The scans that hold a slot, beside the counter that is to say how many they are.
pub record Node : Type 0 where
  pub admission : ScanAdmission
  pub holding : ℕ

settle : Node → ScanAdmission × Option AdmissionError → Node
settle n (a, none) = record { admission = a; holding = n.holding + 1 }
settle n (a, some e) = record { admission = a; holding = n.holding }

-- Only a scan that holds a slot gives one back (`defer r.releaseScan()` of a started run).
unfoldable pub call : Node → Call → Node
unfolding settle acquire release
call n (ask requested) = settle n (acquire n.admission requested)
call n give_back =
    if ltb 0 n.holding
    then record { admission = release n.admission; holding = n.holding - 1 }
    else n

unfoldable pub calls : Node → List Call → Node
calls n [] = n
calls n (c ∷ cs) = calls (call n c) cs
