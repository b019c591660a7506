-- ===== src/Store/States/Tally.antt =====
-- The digest's numbers and its list say the same.
use nuclei_security_center.Common.{
  ℕ, ◌+◌, ◌≡◌, refl, sym, ◌∙◌, true, false, List, [], ◌∷◌, arith, length, Bool-cases, inl, inr,
}
use nuclei_security_center.Store.Rows.{DigestStatus, Severity, SeverityCounts, DigestFinding}
use nuclei_security_center.Store.Digest.{tally, counts, sorts_before, place, in_order, digest_of}

-- `SeverityCounts.Total`
unfoldable pub total : SeverityCounts → ℕ
total c = c.critical + c.high + c.medium + c.low + c.info + c.unknown

total-tally : (s : Severity) (c : SeverityCounts) → total (tally s c) ≡ total c + 1
unfolding total tally
total-tally Severity.critical c = omega arith
total-tally Severity.high c = omega arith
total-tally Severity.medium c = omega arith
total-tally Severity.low c = omega arith
total-tally Severity.info c = omega arith
total-tally Severity.unknown c = omega arith

length-place : (a : DigestFinding) (bs : List DigestFinding) → length (place a bs) ≡ length bs + 1
unfolding place
length-place a [] = omega arith
length-place a (b ∷ bs) = ground (arith, length-place a bs)

length-in_order : (fs : List DigestFinding) → length (in_order fs) ≡ length fs
unfolding in_order
length-in_order [] = refl
length-in_order (f ∷ fs) = omega (arith, length-place f (in_order fs), length-in_order fs)

abbrev all_totals : List DigestFinding → ℕ
all_totals fs =
    total (counts DigestStatus.new fs)
    + total (counts DigestStatus.changed fs)
    + total (counts DigestStatus.fixed fs)

-- A finding is counted under its own status and under no other.
all_totals-cons :
    (s : DigestStatus) (f : DigestFinding) (fs : List DigestFinding)
    → f.status ≡ s
    → all_totals (f ∷ fs) ≡ all_totals fs + 1
unfolding counts
all_totals-cons DigestStatus.new f fs e =
    ground (arith, total-tally f.severity (counts DigestStatus.new fs))
all_totals-cons DigestStatus.changed f fs e =
    ground (arith, total-tally f.severity (counts DigestStatus.changed fs))
all_totals-cons DigestStatus.fixed f fs e =
    ground (arith, total-tally f.severity (counts DigestStatus.fixed fs))

all_totals-eq-length : (fs : List DigestFinding) → all_totals fs ≡ length fs
all_totals-eq-length [] = unfold counts total in refl
all_totals-eq-length (f ∷ fs) =
    omega (arith, all_totals-cons f.status f fs refl, all_totals-eq-length fs)

-- Each finding stands before the next by status, then severity, then id.
abbrev pub IsOrdered : List DigestFinding → Type 0
IsOrdered [] = Unit
IsOrdered (a ∷ []) = Unit
IsOrdered (a ∷ b ∷ fs) = (sorts_before a b ≡ true) × IsOrdered (b ∷ fs)

sorts_before_total : (a b : DigestFinding) → sorts_before a b ≡ false → sorts_before b a ≡ true
unfolding sorts_before
sorts_before_total a b h = ground arith

place_later :
    (a b : DigestFinding) (bs : List DigestFinding)
    → sorts_before a b ≡ false
    → place a (b ∷ bs) ≡ b ∷ place a bs
unfolding place
place_later a b bs h = rw h

IsOrdered-cons_place :
    (b a c : DigestFinding) (bs : List DigestFinding)
    → sorts_before b a ≡ true
    → sorts_before b c ≡ true
    → IsOrdered (place a (c ∷ bs))
    → IsOrdered (b ∷ place a (c ∷ bs))
unfolding place
IsOrdered-cons_place b a c bs ba bc h = elim (Bool-cases (sorts_before a c)) [
  | inl first ↦ let h' : IsOrdered (a ∷ c ∷ bs) = rw first at h in rw first (ba, h')
  | inr later ↦ let h' : IsOrdered (c ∷ place a bs) = rw later at h in rw later (bc, h')
]

place-IsOrdered :
    (a : DigestFinding) (bs : List DigestFinding) → IsOrdered bs → IsOrdered (place a bs)
place-IsOrdered a [] h = unfold place in tt
place-IsOrdered a (b ∷ []) h = elim (Bool-cases (sorts_before a b)) [
  | inl first ↦ unfold place in rw first (first, tt)
  | inr later ↦ unfold place in rw later (sorts_before_total a b later, tt)
]
place-IsOrdered a (b ∷ c ∷ bs) (bc, h) = elim (Bool-cases (sorts_before a b)) [
  | inl first ↦ unfold place in rw first (first, (bc, h))
  | inr later ↦ rw (place_later a b (c ∷ bs) later) (
      IsOrdered-cons_place b a c bs (sorts_before_total a b later) bc
        (place-IsOrdered a (c ∷ bs) h))
]

in_order-IsOrdered : (fs : List DigestFinding) → IsOrdered (in_order fs)
unfolding in_order
in_order-IsOrdered [] = tt
in_order-IsOrdered (f ∷ fs) = place-IsOrdered f (in_order fs) (in_order-IsOrdered fs)

-- The three severity tables of a digest add up to the number of findings that it lists, and it
-- lists them by status, then severity, then id.
pub digest_consistent :
    (fs : List DigestFinding)
    → let d = digest_of fs in
      (total d.new + total d.changed + total d.fixed ≡ length d.findings) × IsOrdered d.findings
unfolding digest_of
digest_consistent fs = (all_totals-eq-length fs ∙ sym (length-in_order fs), in_order-IsOrdered fs)
