-- ===== src/Examples/Admission.antt =====
-- Runs of the admission counters.
use nuclei_security_center.Common.{◌≡◌, some, [], ◌∷◌, refl}
use nuclei_security_center.Common.Int.{pos, negsuc}
use nuclei_security_center.Admission.Node
use nuclei_security_center.Admission.Node.Laws.{IsSound, calls-IsSound}
use nuclei_security_center.Admission.Backend.{ScanAdmission}

-- A node of 2 slots, asked twice, with a slot given back.
calls-IsSound_example : IsSound (
    Node.calls
      (record { admission = Node.new_scan_admission (pos 2); holding = 0 })
      (Node.ask (pos 0) ∷ Node.ask (pos 1) ∷ Node.give_back ∷ []))
calls-IsSound_example =
    calls-IsSound (pos 2) (Node.ask (pos 0) ∷ Node.ask (pos 1) ∷ Node.give_back ∷ [])

abbrev busy : Node.ScanAdmission
busy = record { fallback = 3; limit = 3; active = 3 }

abbrev two_nodes : ScanAdmission
two_nodes = ("a", 2) ∷ ("b", 1) ∷ []

-- The second scan finds the only slot taken, a request out of range is refused, and both leave the
-- counter.
refused_test : Node.acquire busy (negsuc 0) ≡ (busy, some Node.invalid_scan_capacity)
unfolding Node.acquire
refused_test = refl
