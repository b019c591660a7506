-- ===== src/Lifecycle/Gaps.antt =====
-- What `timesMitigated` counts, said without the loop's flags.
use native.Mathlib.Nat.{zero-add}
use nuclei_security_center.Common.{
  ℕ, ◌+◌, ◌≡◌, ◌∙◌, refl, Bool, true, false, Option, none, some, List, [], ◌∷◌, arith, is_some,
  Bool-cases, inl, inr, if◌then◌else◌,
}
use nuclei_security_center.Lifecycle.Timeline.{
  Timeline, visit, timeline_from, compute_lifecycle_timeline,
}

-- Whether each covering scan saw the finding, in order.
pub sightings : (ℕ → Bool) → (ℕ → Option ℕ) → List ℕ → List Bool
sightings covered occ [] = []
sightings covered occ (x ∷ xs) =
    let rest = sightings covered occ xs in if covered x then is_some (occ x) ∷ rest else rest

-- The scans from the first sighting on.
from_first : List Bool → List Bool
from_first [] = []
from_first (true ∷ ps) = true ∷ ps
from_first (false ∷ ps) = from_first ps

-- The places where an absence is followed by a sighting.
returns : List Bool → ℕ
returns [] = 0
returns (p ∷ []) = 0
returns (true ∷ q ∷ ps) = returns (q ∷ ps)
returns (false ∷ true ∷ ps) = returns (true ∷ ps) + 1
returns (false ∷ false ∷ ps) = returns (false ∷ ps)

pub gaps : List Bool → ℕ
gaps ps = returns (from_first ps)

module _ (x : ℕ) (t : Timeline) where
  visit-sighting :
      (o : Option ℕ)
      → t.ever_present ≡ true
      → ((visit x o t).was_present ≡ is_some o)
        × ((visit x o t).ever_present ≡ true)
        × ((visit x o t).times_mitigated + returns (is_some o ∷ [])
            ≡ t.times_mitigated + returns (t.was_present ∷ is_some o ∷ []))
  unfolding visit returns
  visit-sighting none e = ground arith
  visit-sighting (some o) e = ground arith

  visit_before_first :
      (o : Option ℕ)
      → t.ever_present ≡ false
      → ((visit x o t).was_present ≡ is_some o)
        × ((visit x o t).ever_present ≡ is_some o)
        × ((visit x o t).times_mitigated ≡ t.times_mitigated)
  unfolding visit
  visit_before_first none e = ground arith
  visit_before_first (some o) e = ground arith

returns_self : (p : Bool) → returns (p ∷ []) ≡ 0
unfolding returns
returns_self true = refl
returns_self false = refl

-- Only the step from the last sighting to the next is counted there.
returns-cons :
    (w p : Bool) (ps : List Bool) → returns (w ∷ p ∷ ps) ≡ returns (w ∷ p ∷ []) + returns (p ∷ ps)
unfolding returns
returns-cons true p ps = ground arith
returns-cons false true ps = ground arith
returns-cons false false ps = ground arith

gaps-cons :
    (ps : List Bool) → (gaps (true ∷ ps) ≡ returns (true ∷ ps)) × (gaps (false ∷ ps) ≡ gaps ps)
unfolding gaps from_first
gaps-cons ps = (refl, refl)

module _ (covered : ℕ → Bool) (occ_by_scan : ℕ → Option ℕ) where
  timeline-skip :
      (x : ℕ) (xs : List ℕ) (t : Timeline)
      → covered x ≡ false
      → timeline_from covered occ_by_scan t (x ∷ xs) ≡ timeline_from covered occ_by_scan t xs
  unfolding timeline_from
  timeline-skip x xs t h = rw h

  timeline-visit :
      (x : ℕ) (xs : List ℕ) (t : Timeline)
      → covered x ≡ true
      → timeline_from covered occ_by_scan t (x ∷ xs)
        ≡ timeline_from covered occ_by_scan (visit x (occ_by_scan x) t) xs
  unfolding timeline_from
  timeline-visit x xs t h = rw h

  counts_after :
      (xs : List ℕ) (t : Timeline)
      → t.ever_present ≡ true
      → (timeline_from covered occ_by_scan t xs).times_mitigated
        ≡ t.times_mitigated + returns (t.was_present ∷ sightings covered occ_by_scan xs)
  unfolding sightings
  counts_after [] t e = unfold returns timeline_from in ground arith
  counts_after (x ∷ xs) t e = elim (Bool-cases (covered x)) [
    | inr skip ↦ rw (timeline-skip x xs t skip, skip) (counts_after xs t e)
    | inl take ↦
        let t' = visit x (occ_by_scan x) t in
        let (w, e', n) = visit-sighting x t (occ_by_scan x) e in
        let ih = counts_after xs t' e' in
        rw (timeline-visit x xs t take, take)
          (ground (
            arith,
            ih,
            returns_self (is_some (occ_by_scan x)),
            returns-cons t.was_present (is_some (occ_by_scan x)) (sightings covered occ_by_scan xs),
          ))
  ]

  -- Before the first sighting nothing is counted; from then on the first list is the same.
  counts_before :
      (xs : List ℕ) (t : Timeline)
      → t.ever_present ≡ false
      → (timeline_from covered occ_by_scan t xs).times_mitigated
        ≡ t.times_mitigated + gaps (sightings covered occ_by_scan xs)
  unfolding sightings
  counts_before [] t e = unfold gaps returns from_first timeline_from in ground arith
  counts_before (x ∷ xs) t e = elim (Bool-cases (covered x)) [
    | inr skip ↦ rw (timeline-skip x xs t skip, skip) (counts_before xs t e)
    | inl take ↦
        rw (timeline-visit x xs t take, take)
          (elim (Bool-cases (is_some (occ_by_scan x))) [
            | inl seen ↦
                let (w, e', n) = visit_before_first x t (occ_by_scan x) e in
                let ih = counts_after xs (visit x (occ_by_scan x) t) (e' ∙ seen) in
                rw (seen, (gaps-cons _).0) (ground (arith, ih))
            | inr absent ↦
                let (w, e', n) = visit_before_first x t (occ_by_scan x) e in
                let ih = counts_before xs (visit x (occ_by_scan x) t) (e' ∙ absent) in
                rw (absent, (gaps-cons _).1) (ground (arith, ih))
          ])
  ]

  -- `timesMitigated` is the number of times that a covering scan saw the finding right after a
  -- covering scan that did not, counted from the first sighting on.
  pub times_mitigated-eq-gaps :
      (xs : List ℕ)
      → (compute_lifecycle_timeline covered occ_by_scan xs).times_mitigated
        ≡ gaps (sightings covered occ_by_scan xs)
  unfolding compute_lifecycle_timeline
  times_mitigated-eq-gaps xs = counts_before xs _ refl ∙ zero-add _
