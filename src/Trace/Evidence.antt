-- ===== src/Trace/Evidence.antt =====
-- The pairs that a trace yields are those that its records give evidence for.
use nuclei_security_center.Common.{
  suc, ◌≤◌, ◌≡◌, refl, ap, ◌∙◌, Bool, true, false, ◌&&◌, ◌||◌, Option, none, some, List, [], ◌∷◌,
  Chars, length, ltb, ◌==◌, any, arith, Bool-cases, Option-cases, inl, inr, ◌↔◌, Any,
}
use nuclei_security_center.Orchestrator.Records.{Slice}
use nuclei_security_center.Trace.Endpoint.{NetLibrary}
use nuclei_security_center.Trace.Reports.{
  evidence_for, same_pair→eq, Reports, outcome-blank, outcome_iff,
}
use nuclei_security_center.Trace.Lines.{whole_lines, lines_iff}
use nuclei_security_center.Trace.{
  max_coverage_pairs, max_coverage_trace_line, TraceEvent, Pair, same_pair, has_pair, Reduced,
  nothing_read, Outcome, blank, malformed, no_status, other_status, unmapped, evidence, outcome,
  add_pair, count_outcome, trace_lines, insert_pair, sort_pairs, less_pair, report, process,
  covered_endpoints_from_trace,
}

-- Equal pairs are both there or both not.
has_pair-same :
    (p q : Pair) (pairs : List Pair) → same_pair p q ≡ true → has_pair p pairs ≡ has_pair q pairs
has_pair-same p q [] h = refl
has_pair-same p q (r ∷ pairs) h =
    let (a, b) = same_pair→eq p q h in rw (a, b, has_pair-same p q pairs h) refl

abbrev Faithful : (Pair → Bool) → Option (List Pair) → Type 0
Faithful b none = Unit
Faithful b (some pairs) =
    ((p : Pair) → has_pair p pairs ≡ b p) × (length pairs ≤ max_coverage_pairs)

ext-Faithful :
    (b c : Pair → Bool) (o : Option (List Pair))
    → ((p : Pair) → b p ≡ c p)
    → Faithful b o
    → Faithful c o
ext-Faithful b c none h k = tt
ext-Faithful b c (some pairs) h (k, n) = (λ p. k p ∙ h p, n)

add_pair-Faithful :
    (b : Pair → Bool) (q : Pair) (o : Option (List Pair))
    → Faithful b o
    → Faithful (λ p. b p || same_pair p q) (add_pair q o)
unfolding add_pair
add_pair-Faithful b q none h = tt
add_pair-Faithful b q (some pairs) (h, n) = elim (Bool-cases (has_pair q pairs)) [
  | inl known ↦ rw (known) (λ p. already p known, n)
  | inr fresh ↦ elim (Bool-cases (ltb max_coverage_pairs (suc (length pairs)))) [
    | inl over ↦ rw (fresh, over) tt
    | inr room ↦ rw (fresh, room) (λ p. added p, ground arith)
  ]
]
  where
    already : (p : Pair) → has_pair q pairs ≡ true → has_pair p pairs ≡ b p || same_pair p q
    already p known = elim (Bool-cases (same_pair p q)) [
      | inl s ↦ ground (arith, has_pair-same p q pairs s, h p)
      | inr d ↦ ground (arith, h p)
    ]

    added : (p : Pair) → same_pair p q || has_pair p pairs ≡ b p || same_pair p q
    added p = ground (arith, h p)

count_outcome-Faithful :
    (b : Pair → Bool) (o : Outcome) (r : Reduced)
    → Faithful b r.seen
    → Faithful (λ p. b p || evidence_for p o) (count_outcome o r).seen
unfolding count_outcome
count_outcome-Faithful b (evidence q) r h = add_pair-Faithful b q r.seen h
count_outcome-Faithful b blank r h = ext-Faithful b _ r.seen (λ p. ground arith) h
count_outcome-Faithful b malformed r h = ext-Faithful b _ r.seen (λ p. ground arith) h
count_outcome-Faithful b no_status r h = ext-Faithful b _ r.seen (λ p. ground arith) h
count_outcome-Faithful b other_status r h = ext-Faithful b _ r.seen (λ p. ground arith) h
count_outcome-Faithful b unmapped r h = ext-Faithful b _ r.seen (λ p. ground arith) h

module _ (less : Pair → Pair → Bool) where
  insert_pair-has :
      (p q : Pair) (qs : List Pair)
      → has_pair p (insert_pair less q qs) ≡ same_pair p q || has_pair p qs
  unfolding insert_pair
  insert_pair-has p q [] = refl
  insert_pair-has p q (r ∷ qs) = ground (arith, insert_pair-has p q qs)

  length-insert_pair :
      (q : Pair) (qs : List Pair) → length (insert_pair less q qs) ≡ suc (length qs)
  unfolding insert_pair
  length-insert_pair q [] = refl
  length-insert_pair q (r ∷ qs) = ground (arith, length-insert_pair q qs)

  sort_pairs-has : (p : Pair) (qs : List Pair) → has_pair p (sort_pairs less qs) ≡ has_pair p qs
  unfolding sort_pairs
  sort_pairs-has p [] = refl
  sort_pairs-has p (q ∷ qs) =
      insert_pair-has p q (sort_pairs less qs) ∙ ap (λ b. same_pair p q || b) (sort_pairs-has p qs)

  length-sort_pairs : (qs : List Pair) → length (sort_pairs less qs) ≡ length qs
  unfolding sort_pairs
  length-sort_pairs [] = refl
  length-sort_pairs (q ∷ qs) =
      length-insert_pair q (sort_pairs less qs) ∙ ap suc (length-sort_pairs qs)

  sort_pairs-Faithful :
      (b : Pair → Bool) (pairs : List Pair)
      → Faithful b (some pairs)
      → Faithful b (some (sort_pairs less pairs))
  sort_pairs-Faithful b pairs (h, n) =
      (λ p. sort_pairs-has p pairs ∙ h p, omega (arith, n, length-sort_pairs pairs))

-- The endpoints that are reported are the pairs seen, sorted.
report-Faithful :
    (b : Pair → Bool) (failed : Bool) (r : Reduced)
    → Faithful b r.seen
    → Faithful b (report failed r).endpoints
unfolding report
report-Faithful b true r h = tt
report-Faithful b false r h = elim (Option-cases r.seen) [
  | inl e ↦ rw (report, e) tt
  | inr (pairs, e) ↦ elim (Bool-cases (ltb 0 r.non_empty_records && (r.decoded_records == 0))) [
    | inl p ↦ rw (report, e, p) tt
    | inr p ↦ elim (Bool-cases (ltb 0 r.decoded_records && (r.status_records == 0))) [
      | inl q ↦ rw (report, e, p, q) tt
      | inr q ↦ rw (report, e, p, q) (sort_pairs-Faithful less_pair b pairs (rw e at h))
    ]
  ]
]

module _ (net : NetLibrary) (decode : Chars → Option TraceEvent)
    (template_id_by_path : Chars → Option Chars) where
  -- Some record of the trace gives evidence for the pair.
  abbrev pub has_evidence : List (Chars × Bool) → Pair → Bool
  has_evidence lines p =
      any (λ l. evidence_for p (outcome net decode template_id_by_path l.0 l.1)) lines

  process-Faithful :
      (b : Pair → Bool) (lines : List (Chars × Bool)) (r : Reduced)
      → Faithful b r.seen
      → Faithful
          (λ p. b p || has_evidence lines p)
          (process net decode template_id_by_path lines r).seen
  unfolding process
  process-Faithful b [] r h = ext-Faithful b _ r.seen (λ p. ground arith) h
  process-Faithful b ((raw, big) ∷ lines) r h =
      let o = outcome net decode template_id_by_path raw big in
      ext-Faithful (λ p. (b p || evidence_for p o) || has_evidence lines p) _ _ (λ p. ground arith)
        (process-Faithful (λ p. b p || evidence_for p o) lines (count_outcome o r)
          (count_outcome-Faithful b o r h))

  reported :
      (b : Pair → Bool) (o : Option (List Pair)) (out : List Pair)
      → o ≡ some out
      → Faithful b o
      → Faithful b (some out)
  reported b o out e h = rw e at h

  -- A line of at most 1 MiB that reports the pair.
  abbrev pub Evidence : Pair → Chars → Type 0
  Evidence p w = (length w ≤ max_coverage_trace_line) × Reports net decode template_id_by_path p w

  has_evidence_iff :
      (slices : List Slice) (p : Pair)
      → (has_evidence (trace_lines ([], false) slices).0 p ≡ true)
        ↔ Any (Evidence p) (whole_lines [] slices)
  has_evidence_iff slices p =
      lines_iff (λ l. evidence_for p (outcome net decode template_id_by_path l.0 l.1))
        (Reports net decode template_id_by_path p) (λ w. unfold outcome in refl)
        (outcome-blank net decode template_id_by_path p)
        (outcome_iff net decode template_id_by_path p) slices ([], false) [] (refl, omega arith)

  has_pair-reported :
      (slices : List Slice) (out : List Pair)
      → (covered_endpoints_from_trace net decode template_id_by_path slices).endpoints ≡ some out
      → ((p : Pair) → has_pair p out ≡ has_evidence (trace_lines ([], false) slices).0 p)
        × (length out ≤ max_coverage_pairs)
  unfolding covered_endpoints_from_trace
  has_pair-reported slices out e =
      let lines = trace_lines ([], false) slices in
      reported (λ p. has_evidence lines.0 p) _ out e
        (report-Faithful (λ p. has_evidence lines.0 p) lines.1
          (process net decode template_id_by_path lines.0 nothing_read)
          (process-Faithful (λ p. false) lines.0 nothing_read (λ p. refl, omega arith)))

  -- Where coverage is reported, it has a pair exactly if some line of the trace of at most 1 MiB is
  -- evidence for it: trimmed it is not empty and decodes as an event with the error text "none", a
  -- template that is known by the pair's id, and the pair's endpoint, which is not empty. It has at
  -- most 250,000 pairs.
  pub covered_endpoints_from_trace_exact :
      (slices : List Slice) (out : List Pair)
      → (covered_endpoints_from_trace net decode template_id_by_path slices).endpoints ≡ some out
      → ((p : Pair) → (has_pair p out ≡ true) ↔ Any (Evidence p) (whole_lines [] slices))
        × (length out ≤ max_coverage_pairs)
  covered_endpoints_from_trace_exact slices out e =
      let (same, short) = has_pair-reported slices out e in
      (λ p. rw (same p) (has_evidence_iff slices p), short)
