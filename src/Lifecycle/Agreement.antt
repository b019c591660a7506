-- ===== src/Lifecycle/Agreement.antt =====
-- The upserts of `ingestFindingOccurrence` and the pointer's moves keep the evidence that
-- `computeLifecycleTimeline` computes from the scans, if both are given the same test of which scans
-- cover the finding. Lifecycle/Scope gives each side the test of its own.
use mathlib.Core.Option
use nuclei_security_center.Common.{
  ℕ, ◌+◌, ◌≡◌, ◌≢◌, refl, Bool, true, false, Option, none, some, List, [], ◌∷◌, arith, All, ◌==◌,
  if◌then◌else◌, Bool-cases, Option-cases, inl, inr,
}
use nuclei_security_center.Store.Rows.{
  ScanRow, LifecycleRow, created_of, row_before, row_before_asymm, row_before-ne, row_before_self,
}
use nuclei_security_center.Lifecycle.Ingest.{Incoming, upsert, cover}
use nuclei_security_center.Lifecycle.Timeline.{
  Timeline, visit, timeline_from, compute_lifecycle_timeline,
}

-- What `repairLifecycleFindings` writes back.
pub record Evidence : Type 0 where
  pub first_seen_scan : Option ℕ
  pub last_seen_scan : Option ℕ
  pub latest_occurrence_id : Option ℕ
  pub last_covering_scan : Option ℕ
  pub times_mitigated : ℕ

abbrev pub row_evidence : LifecycleRow → Evidence
row_evidence r = record {
  first_seen_scan = r.first_seen_scan;
  last_seen_scan = r.last_seen_scan;
  latest_occurrence_id = r.latest_occurrence_id;
  last_covering_scan = r.last_covering_scan;
  times_mitigated = r.times_mitigated;
}

abbrev timeline_evidence : Timeline → Evidence
timeline_evidence t = record {
  first_seen_scan = t.first_seen_scan;
  last_seen_scan = t.last_seen_scan;
  latest_occurrence_id = t.latest_occurrence_id;
  last_covering_scan = t.last_covering_scan;
  times_mitigated = t.times_mitigated;
}

-- `if lastSeenScan == nil { DELETE } else { UPDATE }`
abbrev pub repaired : Timeline → Option Evidence
repaired t = elim t.last_seen_scan [ none ↦ none | some s ↦ some (timeline_evidence t) ]

module _ (scans : List ScanRow) (created : ℕ → ℕ) (prep : ℕ → Incoming) where
  abbrev pub Before : ℕ → ℕ → Type 0
  Before a b = row_before (created a) a (created b) b ≡ true

  -- The scans are listed oldest first.
  abbrev pub Chronological : List ℕ → Type 0
  Chronological [] = Unit
  Chronological (x ∷ xs) = All (Before x) xs × Chronological xs

  -- `created` reads the table, at each of the scans.
  abbrev pub Listed : List ℕ → Type 0
  Listed = All (λ x. created_of x scans ≡ some (created x))

  unfoldable pub incoming : ℕ → ℕ → Incoming
  incoming scan occurrence = record (prep scan) {
    scan_id = scan;
    scan_created_at = created scan;
    occurrence_id = occurrence;
  }

  -- One scan that covers the finding: it ingests its observation, if it made one, and completes.
  unfoldable pub live_visit : ℕ → Option ℕ → Option LifecycleRow → Option LifecycleRow
  unfolding incoming
  live_visit scan (some occurrence) row =
      some (cover scans scan (created scan) (upsert scans 0 (incoming scan occurrence) row))
  live_visit scan none row = Option.map (cover scans scan (created scan)) row

  module _ (covered : ℕ → Bool) (occ_by_scan : ℕ → Option ℕ) where
    unfoldable pub live_from : Option LifecycleRow → List ℕ → Option LifecycleRow
    unfolding live_visit
    live_from row [] = row
    live_from row (scan ∷ rest) =
        live_from (if covered scan then live_visit scan (occ_by_scan scan) row else row) rest

-- The evidence of a row that has been observed, as plain numbers.
record Reads (r : LifecycleRow) (f l o c n : ℕ) : Type 0 where
  first : r.first_seen_scan ≡ some f
  last : r.last_seen_scan ≡ some l
  occurrence : r.latest_occurrence_id ≡ some o
  covering : r.last_covering_scan ≡ some c
  mitigated : r.times_mitigated ≡ n

module _ (scans : List ScanRow) (created : ℕ → ℕ) (prep : ℕ → Incoming) where
  -- A scan of the table that is earlier than `y`.
  abbrev Past : ℕ → ℕ → Type 0
  Past y x = (created_of x scans ≡ some (created x)) × Before scans created prep x y

  Before-irrefl : (a b : ℕ) → Before scans created prep a b → a ≢ b
  Before-irrefl a b h e = cc (row_before_self (created b) b)

  module _ (y : ℕ) {r : LifecycleRow} {f l o c n : ℕ} (h : Reads r f l o c n) where
    visit_seen :
        (o' : ℕ)
        → created_of y scans ≡ some (created y)
        → Past y f
        → Past y l
        → Past y c
        → Reads
            (cover scans y (created y) (upsert scans 0 (incoming scans created prep y o') (some r)))
            f
            y
            o'
            y
            (n + (if l == c then 0 else 1))
    unfolding cover upsert incoming
    visit_seen o' here pf pl pc = ground (
      arith,
      row_before_asymm (created f) f (created y) y,
      row_before-ne (created l) l (created y) y,
    )

    visit_absent : Past y c → Reads (cover scans y (created y) r) f l o y n
    unfolding cover
    visit_absent pc = ground arith

  visit_first :
      (y o' : ℕ)
      → Reads
          (cover scans y (created y) (upsert scans 0 (incoming scans created prep y o') none))
          y
          y
          o'
          y
          0
  unfolding cover upsert incoming
  visit_first y o' = ground arith

-- The timeline's state once the finding has been observed.
abbrev seen_timeline : ℕ → ℕ → ℕ → ℕ → ℕ → Timeline
seen_timeline f l o c n = record {
  first_seen_scan = some f;
  last_seen_scan = some l;
  latest_occurrence_id = some o;
  last_covering_scan = some c;
  times_mitigated = n;
  was_present = l == c;
  ever_present = true;
}

-- The state before the first observation.
abbrev unseen_timeline : Option ℕ → Timeline
unseen_timeline c = record {
  first_seen_scan = none;
  last_seen_scan = none;
  latest_occurrence_id = none;
  last_covering_scan = c;
  times_mitigated = 0;
  was_present = false;
  ever_present = false;
}

visit-seen :
    (x f l o c n o' : ℕ)
    → visit x (some o') (seen_timeline f l o c n)
      ≡ seen_timeline f x o' x (n + (if l == c then 0 else 1))
unfolding visit
visit-seen x f l o c n o' = ground arith

visit-absent :
    (x f l o c n : ℕ) → l ≢ x → visit x none (seen_timeline f l o c n) ≡ seen_timeline f l o x n
unfolding visit
visit-absent x f l o c n h = ground arith

visit-first :
    (x o' : ℕ) (c : Option ℕ) → visit x (some o') (unseen_timeline c) ≡ seen_timeline x x o' x 0
unfolding visit
visit-first x o' c = ground arith

visit-unseen : (x : ℕ) (c : Option ℕ) → visit x none (unseen_timeline c) ≡ unseen_timeline (some x)
unfolding visit
visit-unseen x c = refl

module _ (scans : List ScanRow) (created : ℕ → ℕ) (prep : ℕ → Incoming) (covered : ℕ → Bool)
    (occ_by_scan : ℕ → Option ℕ) where
  -- A pointer that every scan still to come is later than.
  abbrev Settled : List ℕ → ℕ → Type 0
  Settled xs x = (created_of x scans ≡ some (created x)) × All (Before scans created prep x) xs

  agree_seen :
      (xs : List ℕ) (r : LifecycleRow) (f l o c n : ℕ)
      → Reads r f l o c n
      → Chronological scans created prep xs
      → Listed scans created prep xs
      → Settled xs f
      → Settled xs l
      → Settled xs c
      → Option.map row_evidence (live_from scans created prep covered occ_by_scan (some r) xs)
        ≡ repaired (timeline_from covered occ_by_scan (seen_timeline f l o c n) xs)
  unfolding live_from timeline_from live_visit
  agree_seen [] r f l o c n h _ _ _ _ _ = ground arith
  agree_seen (x ∷ xs) r f l o c n h (later, ch) (here, li) (ef, (bf, pf)) (el, (bl, pl))
        (ec, (bc, pc)) =
      elim (Bool-cases (covered x)) [
        | inr skip ↦ rw skip (agree_seen xs r f l o c n h ch li (ef, pf) (el, pl) (ec, pc))
        | inl take ↦ rw take (elim (Option-cases (occ_by_scan x)) [
          | inl absent ↦
              rw (absent, visit-absent x f l o c n (Before-irrefl scans created prep l x bl))
                (agree_seen xs _ f l o x n (visit_absent scans created prep x h (ec, bc)) ch li
                  (ef, pf) (el, pl) (here, later))
          | inr (o', seen) ↦
              rw (seen, visit-seen x f l o c n o')
                (agree_seen xs _ f x o' x _
                  (visit_seen scans created prep x h o' here (ef, bf) (el, bl) (ec, bc)) ch li
                  (ef, pf) (here, later) (here, later))
        ])
      ]

  agree_unseen :
      (xs : List ℕ) (c : Option ℕ)
      → Chronological scans created prep xs
      → Listed scans created prep xs
      → Option.map row_evidence (live_from scans created prep covered occ_by_scan none xs)
        ≡ repaired (timeline_from covered occ_by_scan (unseen_timeline c) xs)
  unfolding live_from timeline_from live_visit
  agree_unseen [] c _ _ = refl
  agree_unseen (x ∷ xs) c (later, ch) (here, li) = elim (Bool-cases (covered x)) [
    | inr skip ↦ rw skip (agree_unseen xs c ch li)
    | inl take ↦ rw take (elim (Option-cases (occ_by_scan x)) [
      | inl absent ↦ rw (absent, visit-unseen x c) (agree_unseen xs (some x) ch li)
      | inr (o', seen) ↦
          rw (seen, visit-first x o' c)
            (agree_seen xs _ x x o' x 0 (visit_first scans created prep x o') ch li (here, later)
              (here, later) (here, later))
    ])
  ]

  -- For listed scans in chronological order, and for any test `covered` that both are given: running the
  -- upserts and the pointer's moves over them leaves the row with exactly the five evidence columns that
  -- `computeLifecycleTimeline` computes, and there is no row exactly when the timeline has no last
  -- observation.
  pub live_from-repair :
      (xs : List ℕ)
      → Chronological scans created prep xs
      → Listed scans created prep xs
      → Option.map row_evidence (live_from scans created prep covered occ_by_scan none xs)
        ≡ repaired (compute_lifecycle_timeline covered occ_by_scan xs)
  unfolding compute_lifecycle_timeline
  live_from-repair xs = agree_unseen xs none
