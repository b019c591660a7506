-- ===== src/Store/States/Pointer.antt =====
-- When `MarkComplete` moves the covering pointer of a lifecycle row, stated without the tests of its
-- statement.
use nuclei_security_center.Common.{
  ℕ, String, ◌≡◌, ◌≢◌, ◌↔◌, ◌⊎◌, ◌<◌, refl, inl, inr, true, false, Option, none, some, List, [],
  ◌&&◌, ◌==◌, not, arith, Any, any-Any, distinct_from, str_eq, eq_iff, if◌then◌else◌,
}
use mathlib.Core.Option
use nuclei_security_center.Store.Rows.{
  ScanRow, LifecycleRow, CoverageOrigin, EndpointCoverage, Db, created_of, row_before,
}
use nuclei_security_center.Store.Scans.{find_scan}
use nuclei_security_center.Store.Complete.{
  coverage_pairs, pair_covers, observed_by, is_candidate, is_associated, same_target, in_target,
  cover_row, origin_allows,
}
use nuclei_security_center.Lifecycle.Ingest.{pointer_earlier, cover}

module _ (db : Db) (cs : ScanRow) (l : LifecycleRow) where
  -- The scan has an occurrence of the row.
  abbrev pub Observes : Type 0
  Observes = Any (λ f. (f.scan_id ≡ cs.id) × (f.finding_id ≡ some l.id)) db.findings

  -- The scan skipped nothing, its coverage is not an untrusted import, and it covers the row's
  -- template at the row's endpoint, which is known.
  abbrev pub Exercises : Type 0
  Exercises =
      (cs.skipped_finding_count ≡ 0)
      × (cs.coverage_origin ≢ CoverageOrigin.import_untrusted)
      × (l.observed.endpoint_key ≢ "")
      × ((pairs : List EndpointCoverage) × (cs.covered_endpoints ≡ some pairs)
          × Any (λ p. (l.template_id ≡ p.template_id) × (l.observed.endpoint_key ≡ p.endpoint))
              pairs)

  -- Some occurrence of the row is of a scan with the same target, or without one as this scan.
  abbrev pub SeenInTarget : Type 0
  SeenInTarget =
      Any
        (λ f.
          (f.finding_id ≡ some l.id)
          × ((s : ScanRow) × (find_scan f.scan_id db.scans ≡ some s)
              × (s.target_id ≡ cs.target_id)))
        db.findings

  -- The row points to no scan, or to one in the table that was created before this one; equal times
  -- are ordered by the id.
  abbrev pub PointsEarlier : Type 0
  PointsEarlier =
      (l.last_covering_scan ≡ none)
      ⊎ ((p : ℕ) × (t : ℕ) × (l.last_covering_scan ≡ some p)
          × (created_of p db.scans ≡ some t)
          × ((t < cs.created_at) ⊎ ((t ≡ cs.created_at) × (p < cs.id))))

distinct_iff : (o : Option ℕ) (n : ℕ) → (not (distinct_from o (some n)) ≡ true) ↔ (o ≡ some n)
distinct_iff none n = ground arith
distinct_iff (some m) n = ground arith

same_target_iff : (a b : Option String) → (same_target a b ≡ true) ↔ (a ≡ b)
unfolding same_target
same_target_iff none none = ground arith
same_target_iff none (some b) = ground arith
same_target_iff (some a) none = ground arith
same_target_iff (some a) (some b) = ground (arith, eq_iff a b)

in_target_iff :
    (target : Option String) (o : Option ScanRow)
    → (in_target target o ≡ true) ↔ ((s : ScanRow) × (o ≡ some s) × (s.target_id ≡ target))
unfolding in_target
in_target_iff target none = (λ h. ground arith, λ h. ground arith)
in_target_iff target (some s) = (
  λ h. (s, refl, (same_target_iff s.target_id target).0 h),
  λ (t, e, k). ground (arith, same_target_iff s.target_id target),
)

module _ (db : Db) (cs : ScanRow) (l : LifecycleRow) where
  observed_by_iff : (observed_by db.findings cs.id l.id ≡ true) ↔ Observes db cs l
  unfolding observed_by
  observed_by_iff =
      any-Any (λ f. (f.scan_id ≡ cs.id) × (f.finding_id ≡ some l.id)) _
        (λ f. ground (arith, distinct_iff f.finding_id l.id)) db.findings

  covers_iff :
      (pairs : List EndpointCoverage)
      → (pair_covers pairs l ≡ true) ↔ (
          (l.observed.endpoint_key ≢ "")
          × Any
              (λ p. (l.template_id ≡ p.template_id) × (l.observed.endpoint_key ≡ p.endpoint))
              pairs)
  unfolding pair_covers
  covers_iff pairs = ground (
    arith,
    eq_iff l.observed.endpoint_key "",
    any-Any (λ p. (l.template_id ≡ p.template_id) × (l.observed.endpoint_key ≡ p.endpoint))
        (λ p. str_eq l.template_id p.template_id && str_eq l.observed.endpoint_key p.endpoint)
        (λ p.
          ground
            (arith, eq_iff l.template_id p.template_id, eq_iff l.observed.endpoint_key p.endpoint))
        pairs,
  )

  -- The exact pairs of a list that may be NULL.
  Listed : Option (List EndpointCoverage) → Type 0
  Listed c =
      (pairs : List EndpointCoverage) × (c ≡ some pairs)
      × Any (λ p. (l.template_id ≡ p.template_id) × (l.observed.endpoint_key ≡ p.endpoint)) pairs

  covers-Listed :
      (c : Option (List EndpointCoverage))
      → (pair_covers (Option.get_or c []) l ≡ true) ↔ ((l.observed.endpoint_key ≢ "") × Listed c)
  unfolding Listed
  covers-Listed none = (λ h. elim ((covers_iff []).0 h).1 [ ], λ (k, (pairs, e, a)). ground arith)
  covers-Listed (some pairs) = (
    λ h. let (k, a) = (covers_iff pairs).0 h in (k, (pairs, refl, a)),
    λ (k, (qs, e, a)). (covers_iff pairs).1 (k, rw (← Option.some_inj.0 e) at a),
  )

  exercises_iff : (pair_covers (coverage_pairs cs) l ≡ true) ↔ Exercises db cs l
  unfolding coverage_pairs Listed
  exercises_iff = exercises cs.coverage_origin cs.skipped_finding_count cs.covered_endpoints
    where
      exercises :
          (o : CoverageOrigin) (n : ℕ) (c : Option (List EndpointCoverage))
          → (pair_covers (if origin_allows o && n == 0 then Option.get_or c [] else []) l ≡ true)
            ↔ ((n ≡ 0)
                × (o ≢ CoverageOrigin.import_untrusted)
                × (l.observed.endpoint_key ≢ "")
                × Listed c)
      exercises o n c = ground (arith, covers-Listed c, covers-Listed none)

  associated_iff : (is_associated db cs l ≡ true) ↔ SeenInTarget db cs l
  unfolding is_associated
  associated_iff =
      any-Any
        (λ f.
          (f.finding_id ≡ some l.id)
          × ((s : ScanRow) × (find_scan f.scan_id db.scans ≡ some s)
              × (s.target_id ≡ cs.target_id)))
        _
        (λ f. ground (
          arith,
          distinct_iff f.finding_id l.id,
          in_target_iff cs.target_id (find_scan f.scan_id db.scans),
        ))
        db.findings

  earlier_iff :
      (pointer_earlier db.scans cs.id cs.created_at l.last_covering_scan ≡ true)
      ↔ PointsEarlier db cs l
  unfolding pointer_earlier row_before
  earlier_iff = earlier l.last_covering_scan
    where
      created :
          {p : ℕ} (c : Option ℕ)
          → ((elim c [ none ↦ false | some e ↦ row_before e p cs.created_at cs.id ]) ≡ true)
            ↔ ((t : ℕ) × (c ≡ some t) × ((t < cs.created_at) ⊎ ((t ≡ cs.created_at) × (p < cs.id))))
      created none = (λ h. ground arith, λ h. ground arith)
      created (some e) = (λ h. (e, refl, ground arith), λ h. ground arith)

      earlier :
          (o : Option ℕ)
          → (pointer_earlier db.scans cs.id cs.created_at o ≡ true) ↔ (
              (o ≡ none)
              ⊎ ((p : ℕ) × (t : ℕ) × (o ≡ some p)
                  × (created_of p db.scans ≡ some t)
                  × ((t < cs.created_at) ⊎ ((t ≡ cs.created_at) × (p < cs.id)))))
      earlier none = (λ h. inl refl, λ h. refl)
      earlier (some p) = (
        λ h. let (t, e, k) = (created (created_of p db.scans)).0 h in inr (p, t, refl, e, k),
        λ h. elim h [
          | inl e ↦ ground arith
          | inr (q, t, e, seen, k) ↦
              let same = Option.some_inj.0 e in
              (created {p = p} (created_of p db.scans)).1 (t, rw same seen, rw same k)
        ],
      )

  -- After the scan completes, the row points to it exactly when it did before, or all of these hold:
  -- the scan has an occurrence of the row, or it skipped nothing, is not an untrusted import and
  -- covers the row's template at its endpoint, which is known; some scan of the same target has an
  -- occurrence of the row; and the row points to no scan, or to one in the table that is earlier.
  pub cover_row_exact : ((cover_row db cs l).last_covering_scan ≡ some cs.id) ↔ (
      (l.last_covering_scan ≡ some cs.id)
      ⊎ ((Observes db cs l ⊎ Exercises db cs l) × SeenInTarget db cs l × PointsEarlier db cs l))
  unfolding cover_row is_candidate cover
  cover_row_exact = ground (arith, observed_by_iff, exercises_iff, associated_iff, earlier_iff)
