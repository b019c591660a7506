-- ===== src/Admission/Backend.antt =====
-- `scanAdmission` of internal/backend/admission.go: one counter for each scanner node.
pub mod Laws
use nuclei_security_center.Common.{
  ℕ, ◌+◌, ◌-◌, String, ◌||◌, Option, none, some, ltb, leb, if◌then◌else◌, str_eq, [],
}
use nuclei_security_center.Common.Int.{ℤ, pos_part}
use nuclei_security_center.Common.Dict.{Dict, lookup, insert, remove}
use nuclei_security_center.Admission.Node.{
  default_max_concurrent_scans, max_concurrent_scans_ceiling,
}

pub data AdmissionError : Type 0 where
  scan_capacity invalid_configuration : AdmissionError

abbrev pub ScanAdmission : Type 0
ScanAdmission = Dict ℕ

abbrev pub new_scan_admission : ScanAdmission
new_scan_admission = []

-- `a.active[nodeID]`: a missing key reads 0.
count_of : Option ℕ → ℕ
count_of none = 0
count_of (some n) = n

unfoldable pub active : ScanAdmission → String → ℕ
unfolding count_of
active a node_id = count_of (lookup node_id a)

-- `limit <= 0` asks for the default.
limit_or_default : ℤ → ℕ
limit_or_default limit =
    if ltb 0 (pos_part limit) then pos_part limit else default_max_concurrent_scans

unfoldable pub acquire : ScanAdmission → String → ℤ → ScanAdmission × Option AdmissionError
unfolding limit_or_default
acquire a node_id given =
    let limit = limit_or_default given in
    if str_eq node_id "" || ltb max_concurrent_scans_ceiling limit
    then (a, some invalid_configuration)
    else if leb limit (active a node_id)
    then (a, some scan_capacity)
    else (insert node_id (active a node_id + 1) a, none)

unfoldable pub release : ScanAdmission → String → ScanAdmission
release a node_id =
    if leb (active a node_id) 1 then remove node_id a else insert node_id (active a node_id - 1) a
