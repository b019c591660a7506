-- ===== src/Lifecycle/Detection.antt =====
-- The read-time expressions of internal/store/lifecycle.go (`lcDetectionExpr`, `lcEffectiveExpr`,
-- `effSevExpr`, `effSevOrder`) and the two analyst overlays, `SetDisposition` and
-- `RecastSeverity`.
use Prim.Native.String.{String}
use nuclei_security_center.Common.{
  ℕ, ◌≤◌, ◌<◌, ◌≡◌, ◌≢◌, ◌↔◌, ◌⊎◌, Bool, true, false, Option, none, some, arith, leb, ltb, ◌==◌,
  distinct_from, str_eq, if◌then◌else◌,
}
use nuclei_security_center.Store.Rows.{
  LifecycleRow, Disposition, no_disposition, false_positive, accepted,
}

pub data DetectionState : Type 0 where
  active new resurfaced mitigated previously_mitigated : DetectionState

-- SQL's `=` on columns that may be NULL, as a CASE reads it: unknown is not true.
sql_equal : Option ℕ → Option ℕ → Bool
sql_equal none b = false
sql_equal (some a) none = false
sql_equal (some a) (some b) = a == b

detection_from : LifecycleRow → Option ℕ → DetectionState
unfolding sql_equal
detection_from r none = active
detection_from r (some c) =
    if distinct_from r.last_seen_scan (some c)
    then (if leb 1 r.times_mitigated then previously_mitigated else mitigated)
    else if sql_equal r.first_seen_scan (some c)
    then new
    else if leb 1 r.times_mitigated
    then resurfaced
    else active

unfoldable pub detection_state : LifecycleRow → DetectionState
unfolding detection_from
detection_state r = detection_from r r.last_covering_scan

pub data EffectiveState : Type 0 where
  accepted_risk marked_false_positive : EffectiveState
  detected : DetectionState → EffectiveState

-- `accept_expires_at IS NULL OR accept_expires_at > now()`
acceptance_holds : Option ℕ → ℕ → Bool
acceptance_holds none now = true
acceptance_holds (some expiry) now = ltb now expiry

overlay : Disposition → Bool → DetectionState → EffectiveState
overlay accepted true d = accepted_risk
overlay accepted false d = detected d
overlay false_positive holds d = marked_false_positive
overlay no_disposition holds d = detected d

unfoldable pub effective_state : LifecycleRow → ℕ → EffectiveState
unfolding overlay acceptance_holds detection_state
effective_state r now =
    overlay r.disposition (acceptance_holds r.accept_expires_at now) (detection_state r)

keep_expiry : Disposition → Option ℕ → Option ℕ
keep_expiry accepted expires = expires
keep_expiry false_positive expires = none
keep_expiry no_disposition expires = none

-- `SetDisposition` on the row that it finds; the note, the author and the time are for display.
unfoldable pub set_disposition : Disposition → Option ℕ → LifecycleRow → LifecycleRow
unfolding keep_expiry
set_disposition d expires r = record r {
  disposition = d;
  accept_expires_at = keep_expiry d expires;
}

-- `nullStr`
null_str : String → Option String
null_str s = if str_eq s "" then none else some s

-- `RecastSeverity` on the row that it finds.
unfoldable pub recast_severity : String → LifecycleRow → LifecycleRow
unfolding null_str
recast_severity severity r = record r { recast_severity = null_str severity }

text_or : Option String → String → String
text_or none s = s
text_or (some t) s = t

-- `effSevExpr`
unfoldable pub effective_severity : LifecycleRow → String
unfolding text_or
effective_severity r = text_or r.recast_severity r.observed.severity

-- A row is open when the newest covering scan saw it, and closed when it did not.
abbrev pub is_closed : DetectionState → Bool
is_closed mitigated = true
is_closed previously_mitigated = true
is_closed _ = false

-- A row is closed exactly when a scan covers it and that scan is not the one that saw it last. It
-- is `previously_mitigated` exactly when, besides, a mitigation was counted; `new` exactly when
-- the newest covering scan saw it last and first; `resurfaced` exactly when that scan saw it last,
-- another saw it first, and a mitigation was counted.
pub detection_state_exact :
    (r : LifecycleRow)
    → ((is_closed (detection_state r) ≡ true)
        ↔ ((r.last_covering_scan ≢ none) × (r.last_seen_scan ≢ r.last_covering_scan)))
      × ((detection_state r ≡ previously_mitigated) ↔ (
          (r.last_covering_scan ≢ none)
          × (r.last_seen_scan ≢ r.last_covering_scan)
          × (1 ≤ r.times_mitigated)))
      × ((detection_state r ≡ new) ↔ (
          (r.last_covering_scan ≢ none)
          × (r.last_seen_scan ≡ r.last_covering_scan)
          × (r.first_seen_scan ≡ r.last_covering_scan)))
      × ((detection_state r ≡ resurfaced) ↔ (
          (r.last_covering_scan ≢ none)
          × (r.last_seen_scan ≡ r.last_covering_scan)
          × (r.first_seen_scan ≢ r.last_covering_scan)
          × (1 ≤ r.times_mitigated)))
unfolding detection_state
detection_state_exact r = ground arith

-- An expiry that has not come, or none.
abbrev pub InForce : Option ℕ → ℕ → Type 0
InForce none now = Unit
InForce (some e) now = now < e

-- An expiry that has come.
abbrev pub Expired : Option ℕ → ℕ → Type 0
Expired none now = ⊥
Expired (some e) now = e ≤ now

-- Whatever disposition is set with whatever expiry, the detection state stays as it was, and a
-- reader sees: the accepted risk exactly while its expiry has not come, the false positive always,
-- and otherwise, also for an expired acceptance, exactly the detection state.
pub effective-set_disposition :
    (r : LifecycleRow) (d : Disposition) (expires : Option ℕ) (now : ℕ)
    → let r' = set_disposition d expires r in
      (detection_state r' ≡ detection_state r)
      × ((effective_state r' now ≡ accepted_risk) ↔ ((d ≡ accepted) × InForce expires now))
      × ((effective_state r' now ≡ marked_false_positive) ↔ (d ≡ false_positive))
      × ((effective_state r' now ≡ detected (detection_state r))
          ↔ ((d ≡ no_disposition) ⊎ ((d ≡ accepted) × Expired expires now)))
unfolding effective_state set_disposition
effective-set_disposition r accepted none now = ground arith
effective-set_disposition r accepted (some e) now = ground arith
effective-set_disposition r false_positive expires now = ground arith
effective-set_disposition r no_disposition expires now = ground arith
