-- ===== src/Lifecycle/Scope.antt =====
-- The live path and the repair agree on the evidence of a finding in one scope: a target, or the scans
-- without one. Live, each scan ingests its observation, if it made one, and completes by `MarkComplete`
-- on the table of findings as it is then.
use mathlib.Core.Option
use nuclei_security_center.Common.{
  ℕ, String, ◌≡◌, ◌≢◌, ◌∙◌, refl, sym, ap, Bool, true, false, not, ◌&&◌, ◌||◌, Option, none, some,
  List, [], ◌∷◌, ◌==◌, ltb, arith, All, any, is_some, distinct_from, str_eq, eq_iff, if◌then◌else◌,
  Bool-cases, Option-cases, inl, inr,
}
use nuclei_security_center.Store.Rows.{
  ScanRow, LifecycleRow, Occurrence, EndpointCoverage, CoverageOrigin, Db, row_before-ne,
}
use nuclei_security_center.Store.Scans.{find_scan}
use nuclei_security_center.Store.Complete.{
  origin_allows, coverage_pairs, pair_covers, observed_by, is_candidate, is_associated, same_target,
  in_target, cover_row,
}
use nuclei_security_center.Lifecycle.Ingest.{
  Incoming, incoming_newer, upsert, cover, observe_again, observe_first, pointer_earlier,
}
use nuclei_security_center.Lifecycle.Timeline.{
  Timeline, empty_timeline, timeline_from, compute_lifecycle_timeline,
}
use nuclei_security_center.Lifecycle.Repair.{covered, has_scope, target_scope_key, in_coverage}
use nuclei_security_center.Lifecycle.Agreement.{
  row_evidence, repaired, incoming, live_visit, live_from, live_from-repair, Chronological, Listed,
  Before,
}

same_target_refl : (t : Option String) → same_target t t ≡ true
unfolding same_target
same_target_refl none = refl
same_target_refl (some t) = ground (arith, eq_iff t t)

timeline_from-ext :
    (f g : ℕ → Bool) (occ : ℕ → Option ℕ) (xs : List ℕ) (t : Timeline)
    → All (λ x. f x ≡ g x) xs
    → timeline_from f occ t xs ≡ timeline_from g occ t xs
unfolding timeline_from
timeline_from-ext f g occ [] t h = refl
timeline_from-ext f g occ (x ∷ xs) t (h, hs) = rw h (timeline_from-ext f g occ xs _ hs)

timeline-ext :
    (f g : ℕ → Bool) (occ : ℕ → Option ℕ) (xs : List ℕ)
    → All (λ x. f x ≡ g x) xs
    → compute_lifecycle_timeline f occ xs ≡ compute_lifecycle_timeline g occ xs
unfolding compute_lifecycle_timeline
timeline-ext f g occ xs h = timeline_from-ext f g occ xs empty_timeline h

module _ (scans : List ScanRow) (created : ℕ → ℕ) (prep : ℕ → Incoming) (row_of : ℕ → ScanRow)
    (occ_by_scan : ℕ → Option ℕ) where
  abbrev pub db_with : List Occurrence → Db
  db_with fs = record { scans = scans; findings = fs; lifecycle = []; outbox = [] }

  -- The occurrence of the only row, whose id is 0.
  abbrev pub occurrence : ℕ → ℕ → Occurrence
  occurrence scan id = record {
    id = id;
    scan_id = scan;
    target_id = (row_of scan).target_id;
    finding_id = some 0;
    dedup_key = (prep scan).key;
    created_at = created scan;
  }

  -- One scan, with the row and the findings so far.
  unfoldable pub live_scan :
      ℕ → Option ℕ → Option LifecycleRow → List Occurrence → Option LifecycleRow × List Occurrence
  unfolding incoming upsert cover_row
  live_scan scan (some id) row fs =
      let fs' = occurrence scan id ∷ fs in
      (
        some (
            cover_row (db_with fs') (row_of scan)
              (upsert scans 0 (incoming scans created prep scan id) row)),
        fs',
      )
  live_scan scan none row fs = (Option.map (cover_row (db_with fs) (row_of scan)) row, fs)

  unfoldable pub live_scans : Option LifecycleRow → List Occurrence → List ℕ → Option LifecycleRow
  unfolding live_scan
  live_scans row fs [] = row
  live_scans row fs (scan ∷ rest) =
      let next = live_scan scan (occ_by_scan scan) row fs in live_scans next.0 next.1 rest

  module _ (target : Option String) (template endpoint : String) where
    -- The table has the scan's row, of the scope; the scan's observation would be of the template at
    -- the endpoint.
    pub record Known (x : ℕ) : Type 0 where
      pub found : find_scan x scans ≡ some (row_of x)
      pub same_id : (row_of x).id ≡ x
      pub same_time : (row_of x).created_at ≡ created x
      pub same_scope : (row_of x).target_id ≡ target
      pub same_template : (prep x).template_id ≡ template
      pub same_endpoint : (prep x).observed.endpoint_key ≡ endpoint

    -- The pair of the finding is among the pairs.
    pairs_at : List EndpointCoverage → Bool
    pairs_at pairs =
        not (str_eq endpoint "")
        && any (λ p. str_eq template p.template_id && str_eq endpoint p.endpoint) pairs

    -- The part of `covered` behind the test of the scope.
    evident : ℕ → Bool
    evident x = is_some (occ_by_scan x) || pairs_at (coverage_pairs (row_of x))

    seen_in_scope : List Occurrence → Bool
    seen_in_scope fs =
        any
          (λ f.
            not (distinct_from f.finding_id (some 0))
            && in_target target (find_scan f.scan_id scans))
          fs

    -- The row is of the template at the endpoint, and has been seen.
    record Follows (r : LifecycleRow) (fs : List Occurrence) : Type 0 where
      id_zero : r.id ≡ 0
      of_template : r.template_id ≡ template
      of_endpoint : r.observed.endpoint_key ≡ endpoint
      scoped : seen_in_scope fs ≡ true

    Follows-associated :
        (x : ℕ) (r : LifecycleRow) (fs : List Occurrence)
        → Known x
        → Follows r fs
        → is_associated (db_with fs) (row_of x) r ≡ true
    unfolding is_associated seen_in_scope
    Follows-associated x r fs k h = rw (is_associated, h.id_zero, k.same_scope) h.scoped

    Follows-pairs :
        (r : LifecycleRow) (fs : List Occurrence) (pairs : List EndpointCoverage)
        → Follows r fs
        → pair_covers pairs r ≡ pairs_at pairs
    unfolding pair_covers pairs_at
    Follows-pairs r fs pairs h = rw (pair_covers, h.of_template, h.of_endpoint) refl

    cover_row-Known :
        (x : ℕ) (r : LifecycleRow) (fs : List Occurrence) (c : Bool)
        → Known x
        → is_candidate (db_with fs) (row_of x) r ≡ c
        → is_associated (db_with fs) (row_of x) r ≡ true
        → cover_row (db_with fs) (row_of x) r ≡ (if c then cover scans x (created x) r else r)
    unfolding cover_row
    cover_row-Known x r fs c k e a = rw (cover_row, e, a, k.same_id, k.same_time) (tidy c)
      where
        tidy :
            (c : Bool)
            → (if c && true then cover scans x (created x) r else r)
              ≡ (if c then cover scans x (created x) r else r)
        tidy true = refl
        tidy false = refl

    absent_visit :
        (x : ℕ) (r : LifecycleRow) (fs : List Occurrence)
        → Known x
        → Follows r fs
        → observed_by fs x 0 ≡ false
        → occ_by_scan x ≡ none
        → cover_row (db_with fs) (row_of x) r
          ≡ (if evident x then cover scans x (created x) r else r)
    unfolding evident is_candidate
    absent_visit x r fs k h unseen absent =
        cover_row-Known x r fs (evident x) k
          (rw
            (
              is_candidate,
              Follows-pairs r fs (coverage_pairs (row_of x)) h,
              h.id_zero,
              k.same_id,
              unseen,
              absent,
            )
            (or_false (pairs_at (coverage_pairs (row_of x)))))
          (Follows-associated x r fs k h)
      where
        or_false : (b : Bool) → b || false ≡ b
        or_false true = refl
        or_false false = refl

    seen_now :
        (x id : ℕ) (fs : List Occurrence) → Known x → seen_in_scope (occurrence x id ∷ fs) ≡ true
    unfolding seen_in_scope in_target
    seen_now x id fs k = rw (k.found) (rw k.same_scope (ground (arith, same_target_refl target)))

    seen_visit :
        (x id : ℕ) (r : LifecycleRow) (fs : List Occurrence)
        → Known x
        → Follows r (occurrence x id ∷ fs)
        → cover_row (db_with (occurrence x id ∷ fs)) (row_of x) r ≡ cover scans x (created x) r
    unfolding is_candidate observed_by
    seen_visit x id r fs k h =
        cover_row-Known x r (occurrence x id ∷ fs) true k
          (let a = h.id_zero in let b = k.same_id in ground arith)
          (Follows-associated x r (occurrence x id ∷ fs) k h)

    cover-Follows :
        (x t : ℕ) (r : LifecycleRow) (fs : List Occurrence)
        → Follows r fs
        → Follows (cover scans x t r) fs
    unfolding cover
    cover-Follows x t r fs h = elim (Bool-cases (pointer_earlier scans x t r.last_covering_scan)) [
      | inl p ↦ rw p (record {
        id_zero = h.id_zero;
        of_template = h.of_template;
        of_endpoint = h.of_endpoint;
        scoped = h.scoped;
      })
      | inr p ↦ rw p h
    ]

    Seen : Option LifecycleRow → List Occurrence → Type 0
    Seen none fs = Unit
    Seen (some r) fs = Follows r fs

    upsert-Follows :
        (x id : ℕ) (row : Option LifecycleRow) (fs : List Occurrence)
        → Known x
        → Seen row fs
        → Follows (upsert scans 0 (incoming scans created prep x id) row) (occurrence x id ∷ fs)
    unfolding upsert incoming observe_first observe_again Seen
    upsert-Follows x id none fs k h = record {
      id_zero = refl;
      of_template = k.same_template;
      of_endpoint = k.same_endpoint;
      scoped = seen_now x id fs k;
    }
    upsert-Follows x id (some r) fs k h = record {
      id_zero = h.id_zero;
      of_template = h.of_template;
      of_endpoint = either (incoming_newer scans (incoming scans created prep x id) r);
      scoped = seen_now x id fs k;
    }
      where
        either : (b : Bool) → (if b then (prep x).observed else r.observed).endpoint_key ≡ endpoint
        either true = k.same_endpoint
        either false = h.of_endpoint

    abbrev guarded : ℕ → Option LifecycleRow → Option LifecycleRow
    guarded x row = if evident x then live_visit scans created prep x (occ_by_scan x) row else row

    Step :
        ℕ → Option LifecycleRow → List Occurrence → Option LifecycleRow × List Occurrence → Type 0
    Step x row fs next =
        (next.0 ≡ guarded x row)
        × Seen next.0 next.1
        × ((y : ℕ) → x ≢ y → observed_by fs y 0 ≡ false → observed_by next.1 y 0 ≡ false)

    -- A scan that made no observation.
    absent-Step :
        (x : ℕ) (row : Option LifecycleRow) (fs : List Occurrence)
        → Known x
        → Seen row fs
        → observed_by fs x 0 ≡ false
        → occ_by_scan x ≡ none
        → Step x row fs (live_scan x none row fs)
    unfolding live_scan Step live_visit Seen
    absent-Step x none fs k h unseen absent = (rw absent (both (evident x)), tt, λ y d u. u)
      where
        both : (b : Bool) → ◌≡◌ {A = Option LifecycleRow} none (if b then none else none)
        both true = refl
        both false = refl
    absent-Step x (some r) fs k h unseen absent =
        let e = absent_visit x r fs k h unseen absent in
        (rw (absent, e) (pushed (evident x)), rw e (follows (evident x)), λ y d u. u)
      where
        pushed :
            (b : Bool)
            → ◌≡◌ {A = Option LifecycleRow}
                (some (if b then cover scans x (created x) r else r))
                (if b then some (cover scans x (created x) r) else some r)
        pushed true = refl
        pushed false = refl

        follows : (b : Bool) → Follows (if b then cover scans x (created x) r else r) fs
        follows true = cover-Follows x (created x) r fs h
        follows false = h

    -- A scan that observed the finding.
    Seen-Step :
        (x id : ℕ) (row : Option LifecycleRow) (fs : List Occurrence)
        → Known x
        → Seen row fs
        → occ_by_scan x ≡ some id
        → Step x row fs (live_scan x (some id) row fs)
    unfolding live_scan Step live_visit evident Seen observed_by
    Seen-Step x id row fs k h e =
        let follows = upsert-Follows x id row fs k h in
        (
          rw e (ap some (seen_visit x id _ fs k follows)),
          rw (seen_visit x id _ fs k follows) (cover-Follows x (created x) _ _ follows),
          λ y d u. ground (arith, d, u),
        )

    live_scan-Step :
        (x : ℕ) (row : Option LifecycleRow) (fs : List Occurrence)
        → Known x
        → Seen row fs
        → observed_by fs x 0 ≡ false
        → Step x row fs (live_scan x (occ_by_scan x) row fs)
    live_scan-Step x row fs k h unseen = elim (Option-cases (occ_by_scan x)) [
      | inl absent ↦ rw absent (absent-Step x row fs k h unseen absent)
      | inr (id, e) ↦ rw e (Seen-Step x id row fs k h e)
    ]

    live_scans-eq :
        (row : Option LifecycleRow) (fs : List Occurrence) (xs : List ℕ)
        → Seen row fs
        → All Known xs
        → All (λ x. observed_by fs x 0 ≡ false) xs
        → Chronological scans created prep xs
        → live_scans row fs xs ≡ live_from scans created prep evident occ_by_scan row xs
    unfolding live_scans live_from Step
    live_scans-eq row fs [] h ks us ch = refl
    live_scans-eq row fs (x ∷ xs) h (k, ks) (u, us) (later, ch) =
        let next = live_scan x (occ_by_scan x) row fs in
        let (e, seen, keeps) = live_scan-Step x row fs k h u in
        live_scans-eq next.0 next.1 xs seen ks (fresh x xs fs next.1 keeps later us) ch
        ∙ ap (λ r. live_from scans created prep evident occ_by_scan r xs) e
      where
        fresh :
            (x : ℕ) (ys : List ℕ) (fs fs' : List Occurrence)
            → ((y : ℕ) → x ≢ y → observed_by fs y 0 ≡ false → observed_by fs' y 0 ≡ false)
            → All (Before scans created prep x) ys
            → All (λ y. observed_by fs y 0 ≡ false) ys
            → All (λ y. observed_by fs' y 0 ≡ false) ys
        fresh x [] fs fs' keeps b us = tt
        fresh x (y ∷ ys) fs fs' keeps (b, bs) (u, us) = (
          keeps y (λ e. row_before-ne (created x) x (created y) y b (ap created (sym e)) e) u,
          fresh x ys fs fs' keeps bs us,
        )

    complete_pairs :
        (pairs : List EndpointCoverage)
        → template ≢ ""
        → endpoint ≢ ""
        → in_coverage template endpoint (some pairs)
          ≡ any (λ p. str_eq template p.template_id && str_eq endpoint p.endpoint) pairs
    complete_pairs [] t e = refl
    complete_pairs (p ∷ pairs) t e = ground (
      arith,
      t,
      e,
      eq_iff template p.template_id,
      eq_iff endpoint p.endpoint,
      eq_iff p.template_id "",
      eq_iff p.endpoint "",
      complete_pairs pairs t e,
    )

    covered-evident :
        (targets : List String) (x : ℕ)
        → template ≢ ""
        → has_scope (target_scope_key target) targets ≡ true
        → Known x
        → covered row_of occ_by_scan targets template endpoint x ≡ evident x
    unfolding covered evident pairs_at coverage_pairs
    covered-evident targets x t s k =
        rw (covered, k.same_scope, s)
          (cases (is_some (occ_by_scan x)) (row_of x).skipped_finding_count
            (row_of x).coverage_origin (row_of x).covered_endpoints)
      where
        cases :
            (seen : Bool) (n : ℕ) (o : CoverageOrigin) (c : Option (List EndpointCoverage))
            → (if seen
                then true
                else if ltb 0 n
                then false
                else if not (origin_allows o)
                then false
                else if str_eq endpoint ""
                then false
                else in_coverage template endpoint c)
              ≡ (seen
                  || (not (str_eq endpoint "")
                      && any
                          (λ p. str_eq template p.template_id && str_eq endpoint p.endpoint)
                          (if origin_allows o && n == 0 then Option.get_or c [] else [])))
        cases true n o c = refl
        cases false n o none = ground arith
        cases false n o (some pairs) = ground (arith, eq_iff endpoint "", complete_pairs pairs t)

    -- For scans of the table in chronological order, all of one scope, which is one of those in which
    -- the repair found the finding, and observations of one template, whose id is not empty, at one
    -- endpoint: letting each scan ingest its observation, if it made one, and complete by
    -- `MarkComplete` leaves the row with exactly the five evidence columns that the repair computes
    -- with its own test `covered`, and no row exactly when the repair deletes it.
    pub live-eq-repair :
        (targets : List String) (xs : List ℕ)
        → template ≢ ""
        → has_scope (target_scope_key target) targets ≡ true
        → All Known xs
        → Chronological scans created prep xs
        → Listed scans created prep xs
        → Option.map row_evidence (live_scans none [] xs)
          ≡ repaired (
              compute_lifecycle_timeline
                (covered row_of occ_by_scan targets template endpoint)
                occ_by_scan
                xs)
    live-eq-repair targets xs t s ks ch li =
        ap (Option.map row_evidence)
          (live_scans-eq none [] xs (unfold Seen in tt) ks (nothing xs) ch)
        ∙ live_from-repair scans created prep evident occ_by_scan xs ch li
        ∙ ap repaired (timeline-ext _ _ occ_by_scan xs (agree xs ks))
      where
        nothing : (ys : List ℕ) → All (λ y. observed_by [] y 0 ≡ false) ys
        nothing [] = tt
        nothing (y ∷ ys) = (unfold observed_by in refl, nothing ys)

        agree :
            (ys : List ℕ)
            → All Known ys
            → All (λ y. evident y ≡ covered row_of occ_by_scan targets template endpoint y) ys
        agree [] k = tt
        agree (y ∷ ys) (k, ks) = (sym (covered-evident targets y t s k), agree ys ks)
