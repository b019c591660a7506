-- ===== src/Admission/Node/Laws.antt =====
-- The node's admission counter over any sequence of calls.
use nuclei_security_center.Common.{
  ℕ, ◌+◌, ◌≤◌, ◌<◌, ◌≡◌, ◌↔◌, none, some, List, [], ◌∷◌, arith, is_some, if◌then◌else◌,
}
use nuclei_security_center.Common.Int.{ℤ, pos, negsuc}
use nuclei_security_center.Admission.Node.{
  ScanAdmission, max_concurrent_scans_ceiling, new_scan_admission, scan_capacity, effective_limit,
  acquire, Node, Call, ask, give_back, call, calls,
}

-- The limits are within the shared range and the counter says how many scans hold a slot.
pub record IsSound (n : Node) : Type 0 where
  pub fallback_pos : 1 ≤ n.admission.fallback
  pub fallback_capped : n.admission.fallback ≤ max_concurrent_scans_ceiling
  pub limit_capped : n.admission.limit ≤ max_concurrent_scans_ceiling
  pub active_capped : n.admission.active ≤ max_concurrent_scans_ceiling
  pub counted : n.admission.active ≡ n.holding

new-IsSound : (limit : ℤ) → IsSound (record { admission = new_scan_admission limit; holding = 0 })
unfolding new_scan_admission
new-IsSound (pos n) = ground arith
new-IsSound (negsuc n) = ground arith

call-IsSound : (n : Node) (c : Call) → IsSound n → IsSound (call n c)
unfolding call
call-IsSound n (ask (pos k)) h = ground arith
call-IsSound n (ask (negsuc k)) h = ground arith
call-IsSound n give_back h = ground arith

calls-IsSound_from : (n : Node) (cs : List Call) → IsSound n → IsSound (calls n cs)
unfolding calls
calls-IsSound_from n [] h = h
calls-IsSound_from n (c ∷ cs) h = calls-IsSound_from (call n c) cs (call-IsSound n c h)

-- Whatever limit the node is started with and whatever calls follow, with whatever requested
-- limits, the counter is the number of scans that hold a slot, and neither it nor a stored limit
-- passes the ceiling.
pub calls-IsSound :
    (limit : ℤ) (cs : List Call)
    → IsSound (calls (record { admission = new_scan_admission limit; holding = 0 }) cs)
calls-IsSound limit cs = calls-IsSound_from _ cs (new-IsSound limit)

-- A request in range is admitted exactly when fewer scans are active than the limit in force,
-- which is the requested one or, for 0, the node's own, and is otherwise refused for capacity; an
-- admission adds one to the counter, a refusal leaves it, and both store that limit.
pub acquire_exact :
    (a : ScanAdmission) (k : ℕ)
    → k ≤ max_concurrent_scans_ceiling
    → (((acquire a (pos k)).1 ≡ none) ↔ (a.active < effective_limit a (pos k)))
      × (((acquire a (pos k)).1 ≡ some scan_capacity) ↔ (effective_limit a (pos k) ≤ a.active))
      × ((acquire a (pos k)).0.active
          ≡ (if is_some (acquire a (pos k)).1 then a.active else a.active + 1))
      × ((acquire a (pos k)).0.limit ≡ effective_limit a (pos k))
unfolding acquire
acquire_exact a k h = ground arith
