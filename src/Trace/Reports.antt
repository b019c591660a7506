-- ===== src/Trace/Reports.antt =====
-- What a line of the trace has to say for its record to be evidence for a pair, stated without the
-- steps of the reduction.
use mathlib.Core.Option
use nuclei_security_center.Common.{
  ℕ, ◌≡◌, refl, ap, ◌∙◌, Bool, true, false, Option, none, some, [], ◌∷◌, Chars, chars_eq→eq, arith,
  ◌≢◌, ◌↔◌, codes, chars_eq, chars_eq_refl, if◌then◌else◌, sym,
}
use nuclei_security_center.Trace.Endpoint.{NetLibrary, is_blank}
use nuclei_security_center.Login.Clients.{trim_left, trim_space}
use nuclei_security_center.Trace.{
  endpoint_of, success, status_outcome, decoded, TraceEvent, Pair, same_pair, Outcome, blank,
  evidence, outcome,
}

abbrev pub evidence_for : Pair → Outcome → Bool
evidence_for p (evidence q) = same_pair p q
evidence_for p _ = false

pub same_pair→eq :
    (p q : Pair)
    → same_pair p q ≡ true
    → (p.template_id ≡ q.template_id) × (p.endpoint ≡ q.endpoint)
same_pair→eq p q h = (
  chars_eq→eq p.template_id q.template_id (ground arith),
  chars_eq→eq p.endpoint q.endpoint (ground arith),
)

same_pair_refl : (p : Pair) → same_pair p p ≡ true
same_pair_refl p = ground (arith, chars_eq_refl p.template_id, chars_eq_refl p.endpoint)

chars_iff : (s t : Chars) → (chars_eq s t ≡ true) ↔ (s ≡ t)
chars_iff s t = (chars_eq→eq s t, λ e. rw e (chars_eq_refl t))

some_iff : (s t : Chars) → (some s ≡ some t) ↔ (s ≡ t)
some_iff s t = Option.some_inj

not_nil : (c : ℕ) (s : Chars) → (c ∷ s) ≢ []
not_nil c s e = ground (arith, e)

module _ (net : NetLibrary) (decode : Chars → Option TraceEvent)
    (template_id_by_path : Chars → Option Chars) where
  -- The trimmed line is not empty and decodes as an event that has the error text "none", whose
  -- template is known by the pair's id, and whose endpoint key is the pair's and not empty.
  abbrev pub Reports : Pair → Chars → Type 0
  Reports p w =
      (trim_space w ≢ [])
      × ((e : TraceEvent) × (decode (trim_space w) ≡ some e)
          × (e.error ≡ some (codes "none"))
          × (template_id_by_path e.template ≡ some p.template_id)
          × (endpoint_of net decode template_id_by_path e ≡ p.endpoint)
          × (p.endpoint ≢ []))

  success_iff :
      (p : Pair) (o : Option Chars) (endpoint : Chars)
      → (evidence_for p (success net decode template_id_by_path o endpoint) ≡ true)
        ↔ ((o ≡ some p.template_id) × (endpoint ≡ p.endpoint) × (p.endpoint ≢ []))
  success_iff p none endpoint = (λ h. ground arith, λ h. ground arith)
  success_iff p (some id) [] = (λ h. ground arith, λ (e, k, n). elim (n (sym k)) [ ])
  success_iff p (some id) (c ∷ s) = (
    λ h.
        let (a, b) = same_pair→eq p (record { template_id = id; endpoint = c ∷ s }) h in
        (ap some (sym a), sym b, λ n. not_nil c s (sym b ∙ n)),
    λ (e, k, n). rw (Option.some_inj.0 e, k) (same_pair_refl p),
  )

  status_iff :
      (p : Pair) (e : TraceEvent) (o : Option Chars)
      → (evidence_for p (status_outcome net decode template_id_by_path e o) ≡ true) ↔ (
          (o ≡ some (codes "none"))
          × (template_id_by_path e.template ≡ some p.template_id)
          × (endpoint_of net decode template_id_by_path e ≡ p.endpoint)
          × (p.endpoint ≢ []))
  status_iff p e none = (λ h. ground arith, λ h. ground arith)
  status_iff p e (some error) = ground (
    arith,
    chars_iff error (codes "none"),
    some_iff error (codes "none"),
    success_iff p (template_id_by_path e.template) (endpoint_of net decode template_id_by_path e),
  )

  decoded_iff :
      (p : Pair) (o : Option TraceEvent)
      → (evidence_for p (decoded net decode template_id_by_path o) ≡ true) ↔ (
          (e : TraceEvent) × (o ≡ some e)
          × (e.error ≡ some (codes "none"))
          × (template_id_by_path e.template ≡ some p.template_id)
          × (endpoint_of net decode template_id_by_path e ≡ p.endpoint)
          × (p.endpoint ≢ []))
  decoded_iff p none = (λ h. ground arith, λ h. ground arith)
  decoded_iff p (some e) = (
    λ h. let (a, b, c, n) = (status_iff p e e.error).0 h in (e, refl, a, b, c, n),
    λ (d, k, a, b, c, n).
        let same = Option.some_inj.0 k in
        (status_iff p e e.error).1 (rw same a, rw same b, rw same c, n),
  )

  -- An empty line is evidence for nothing.
  pub outcome-blank :
      (p : Pair) → evidence_for p (outcome net decode template_id_by_path [] false) ≡ false
  unfolding outcome trim_space trim_left
  outcome-blank p = refl

  pub outcome_iff :
      (p : Pair) (w : Chars)
      → (evidence_for p (outcome net decode template_id_by_path w false) ≡ true) ↔ Reports p w
  unfolding outcome
  outcome_iff p w = trimmed (trim_space w)
    where
      trimmed :
          (t : Chars)
          → (evidence_for p
                (if is_blank t then blank else decoded net decode template_id_by_path (decode t))
              ≡ true)
            ↔ ((t ≢ [])
                × ((e : TraceEvent) × (decode t ≡ some e)
                    × (e.error ≡ some (codes "none"))
                    × (template_id_by_path e.template ≡ some p.template_id)
                    × (endpoint_of net decode template_id_by_path e ≡ p.endpoint)
                    × (p.endpoint ≢ [])))
      trimmed [] = (λ h. ground arith, λ h. elim (h.0 refl) [ ])
      trimmed (c ∷ t) = (
        λ h. (not_nil c t, (decoded_iff p (decode (c ∷ t))).0 h),
        λ h. (decoded_iff p (decode (c ∷ t))).1 h.1,
      )
