-- ===== src/Admission/Backend/Laws.antt =====
-- The backend's counters: isolation of nodes, bounds, and release after acquire.
use nuclei_security_center.Common.{
  ◌+◌, ◌-◌, ◌≤◌, String, ◌≡◌, ◌≢◌, none, some, arith, eq_iff, str_eq, if◌then◌else◌, List, [], ◌∷◌,
}
use nuclei_security_center.Common.Int.{ℤ}
use nuclei_security_center.Common.Dict.{lookup, lookup-insert, lookup-remove}
use nuclei_security_center.Admission.Node.{max_concurrent_scans_ceiling}
use nuclei_security_center.Admission.Backend.{
  ScanAdmission, AdmissionError, new_scan_admission, active, acquire, release,
}

module _ (a : ScanAdmission) (n m : String) where
  pub active-acquire :
      (limit : ℤ)
      → (acquire a n limit).1 ≡ none
      → active (acquire a n limit).0 m ≡ (if str_eq n m then active a n + 1 else active a m)
  unfolding acquire active
  active-acquire limit h = ground (arith, eq_iff n m, lookup-insert n m (active a n + 1) a)

  active-release : active (release a n) m ≡ (if str_eq n m then active a n - 1 else active a m)
  unfolding release active
  active-release =
      ground (arith, eq_iff n m, lookup-insert n m (active a n - 1) a, lookup-remove n m a)

  active-acquire_capped :
      (limit : ℤ)
      → active a m ≤ max_concurrent_scans_ceiling
      → active (acquire a n limit).0 m ≤ max_concurrent_scans_ceiling
  unfolding acquire active
  active-acquire_capped limit h = ground (arith, eq_iff n m, lookup-insert n m (active a n + 1) a)

module _ (a : ScanAdmission) (n m : String) (limit : ℤ) where
  -- An acquire or a release at one node leaves the count of every other node as it was.
  pub nodes_isolated :
      n ≢ m → (active (acquire a n limit).0 m ≡ active a m) × (active (release a n) m ≡ active a m)
  unfolding acquire release active
  nodes_isolated h = ground (
    arith,
    eq_iff n m,
    lookup-insert n m (active a n + 1) a,
    lookup-insert n m (active a n - 1) a,
    lookup-remove n m a,
  )

  -- An admitted scan that is released leaves every node's count as it was before.
  pub release-acquire :
      (acquire a n limit).1 ≡ none → active (release (acquire a n limit).0 n) m ≡ active a m
  release-acquire h = ground (
    arith,
    eq_iff n m,
    eq_iff n n,
    active-release (acquire a n limit).0 n m,
    active-acquire a n m limit,
    active-acquire a n n limit,
  )

-- A refused scan changes no counter.
pub acquire-refused :
    (a : ScanAdmission) (n : String) (limit : ℤ) (e : AdmissionError)
    → (acquire a n limit).1 ≡ some e
    → (acquire a n limit).0 ≡ a
unfolding acquire
acquire-refused a n limit e h = ground arith

-- What the orchestrator does with the counters.
pub data Call : Type 0 where
  submit : String → ℤ → Call
  finish : String → Call

unfoldable pub calls : ScanAdmission → List Call → ScanAdmission
calls a [] = a
calls a (submit n limit ∷ cs) = calls (acquire a n limit).0 cs
calls a (finish n ∷ cs) = calls (release a n) cs

calls_capped :
    (a : ScanAdmission) (m : String) (cs : List Call)
    → active a m ≤ max_concurrent_scans_ceiling
    → active (calls a cs) m ≤ max_concurrent_scans_ceiling
unfolding calls
calls_capped a m [] h = h
calls_capped a m (submit n limit ∷ cs) h =
    calls_capped (acquire a n limit).0 m cs (active-acquire_capped a n m limit h)
calls_capped a m (finish n ∷ cs) h =
    calls_capped (release a n) m cs (ground (arith, eq_iff n m, active-release a n m))

-- From the empty map, whatever acquires and releases follow, with whatever limits, no node ever
-- has more active scans than the ceiling.
pub calls-le-ceiling :
    (m : String) (cs : List Call)
    → active (calls new_scan_admission cs) m ≤ max_concurrent_scans_ceiling
unfolding active lookup
calls-le-ceiling m cs = calls_capped new_scan_admission m cs (omega arith)
