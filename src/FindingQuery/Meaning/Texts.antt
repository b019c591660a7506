-- ===== src/FindingQuery/Meaning/Texts.antt =====
-- The clauses on texts, arrays of texts and targets.
use nuclei_security_center.Common.{
  ◌≡◌, refl, ap, String, Bool, false, not, Option, none, some, List, [], ◌∷◌, str_eq, Chars, any,
  all, arith, Bool-cases, inl, inr,
}
use nuclei_security_center.FindingQuery.{Expr, FieldSpec, is_text_two}
use nuclei_security_center.FindingQuery.Like.{around, after, like_wrap}
use nuclei_security_center.FindingQuery.Like.Literal.{ilike-has_infix, ilike-starts_with}
use nuclei_security_center.FindingQuery.Compile.{
  Bind, texts, compile_text, compile_text_array, compile_target, any_like, ilike_any, ilike_any_two,
  negation, overlaps, exists_ilike, exists_target,
}
use nuclei_security_center.FindingQuery.Rows.{
  Finding, Collation, member, holds, evaluate, ilike_some, lift, not3, or3,
}
use nuclei_security_center.FindingQuery.Meaning.Leaves.{
  Means, push-Means, if-Means, else_invalid, holds-lift,
}
use nuclei_security_center.FindingQuery.Meaning.{
  holds_for, asks_text, asks_text_array, asks_target, contains_one, starts_with_one, searched,
}

module _ (collation : Collation) (f : Finding) where
  any_ext {ℓ} :
      {A : Type ℓ} (p q : A → Bool) → ((a : A) → p a ≡ q a) → (xs : List A) → any p xs ≡ any q xs
  any_ext p q h [] = refl
  any_ext p q h (x ∷ xs) = rw (h x, any_ext p q h xs) refl

  ilike_some-around :
      (vals : List Chars) (s : Chars)
      → ilike_some collation f (like_wrap vals around) s ≡ contains_one collation f vals s
  unfolding like_wrap
  ilike_some-around [] s = refl
  ilike_some-around (v ∷ vals) s =
      rw (ilike-has_infix collation.fold v s, ilike_some-around vals s) refl

  ilike_some-after :
      (vals : List Chars) (s : Chars)
      → ilike_some collation f (like_wrap vals after) s ≡ starts_with_one collation f vals s
  unfolding like_wrap
  ilike_some-after [] s = refl
  ilike_some-after (v ∷ vals) s =
      rw (ilike-starts_with collation.fold v s, ilike_some-after vals s) refl

  lift-ext {ℓ} :
      {A : Type ℓ} (o : Option A) (p q : A → Bool) → ((a : A) → p a ≡ q a) → lift o p ≡ lift o q
  lift-ext none p q h = refl
  lift-ext (some a) p q h = ap some (h a)

  either_holds {ℓ} :
      {A : Type ℓ} (a b : Option A) (q : A → Bool)
      → holds (or3 (lift a q) (lift b q)) ≡ any (holds_for q) (a ∷ b ∷ [])
  either_holds none none q = refl
  either_holds none (some b) q = ground arith
  either_holds (some a) none q = ground arith
  either_holds (some a) (some b) q = ground arith

  neither_holds {ℓ} :
      {A : Type ℓ} (a b : Option A) (q : A → Bool)
      → holds (not3 (or3 (lift a q) (lift b q))) ≡ all (holds_for (λ s. not (q s))) (a ∷ b ∷ [])
  neither_holds none none q = refl
  neither_holds none (some b) q = ground arith
  neither_holds (some a) none q = ground arith
  neither_holds (some a) (some b) q = ground arith

  one_holds {ℓ} :
      {A : Type ℓ} (a : Option A) (q : A → Bool) → holds (lift a q) ≡ any (holds_for q) (a ∷ [])
  one_holds none q = refl
  one_holds (some a) q = ground arith

  none_holds {ℓ} :
      {A : Type ℓ} (a : Option A) (q : A → Bool)
      → holds (not3 (lift a q)) ≡ all (holds_for (λ s. not (q s))) (a ∷ [])
  none_holds none q = refl
  none_holds (some a) q = ground arith

module _ (collation : Collation) (f : Finding) (spec : FieldSpec) (patterns : List Chars)
    (q : Chars → Bool) (same : (s : Chars) → ilike_some collation f patterns s ≡ q s)
    (args : List Bind) where
  like_lift : (e : Expr) → lift (f.text e) (ilike_some collation f patterns) ≡ lift (f.text e) q
  like_lift e = lift-ext collation f (f.text e) _ q same

  any_like-Means :
      Means collation f args
        (any_like spec patterns args (λ x. x))
        (any (holds_for q) (searched collation f spec))
  unfolding any_like evaluate
  any_like-Means = elim (Bool-cases (is_text_two spec.kind)) [
    | inl p ↦ rw (p) (
        push-Means collation f args (texts patterns) (ilike_any_two spec.expr spec.expr_b)
          (any (holds_for q) (f.text spec.expr ∷ f.text spec.expr_b ∷ []))
          (λ binds n e.
            rw (e, like_lift spec.expr, like_lift spec.expr_b)
              (either_holds collation f (f.text spec.expr) (f.text spec.expr_b) q)))
    | inr p ↦ rw (p) (
        push-Means collation f args (texts patterns) (ilike_any spec.expr)
          (any (holds_for q) (f.text spec.expr ∷ []))
          (λ binds n e. rw (e, like_lift spec.expr) (one_holds collation f (f.text spec.expr) q)))
  ]

  any_like-not :
      Means collation f args
        (any_like spec patterns args negation)
        (all (holds_for (λ s. not (q s))) (searched collation f spec))
  unfolding any_like evaluate
  any_like-not = elim (Bool-cases (is_text_two spec.kind)) [
    | inl p ↦ rw (p) (
        push-Means collation f args (texts patterns)
          (λ n. negation (ilike_any_two spec.expr spec.expr_b n))
          (all (holds_for (λ s. not (q s))) (f.text spec.expr ∷ f.text spec.expr_b ∷ []))
          (λ binds n e.
            rw (e, like_lift spec.expr, like_lift spec.expr_b)
              (neither_holds collation f (f.text spec.expr) (f.text spec.expr_b) q)))
    | inr p ↦ rw (p) (
        push-Means collation f args (texts patterns) (λ n. negation (ilike_any spec.expr n))
          (all (holds_for (λ s. not (q s))) (f.text spec.expr ∷ []))
          (λ binds n e. rw (e, like_lift spec.expr) (none_holds collation f (f.text spec.expr) q)))
  ]

module _ (collation : Collation) (f : Finding) where
  pub text-Means :
      (spec : FieldSpec) (op : String) (vals : List Chars) (args : List Bind)
      → Means collation f args (compile_text spec op vals args) (asks_text collation f spec op vals)
  unfolding compile_text
  text-Means spec op vals args =
      if-Means collation f args (str_eq op "contains") _ _
        (any (holds_for (contains_one collation f vals)) (searched collation f spec)) _
        (any_like-Means collation f spec (like_wrap vals around) (contains_one collation f vals)
          (ilike_some-around collation f vals) args)
        (if-Means collation f args (str_eq op "not_contains") _ _ _ _
          (any_like-not collation f spec (like_wrap vals around) (contains_one collation f vals)
            (ilike_some-around collation f vals) args)
          (else_invalid collation f args (str_eq op "starts_with") _ _ _ (
            any_like-Means collation f spec (like_wrap vals after)
              (starts_with_one collation f vals) (ilike_some-after collation f vals) args)))

  none_lift {ℓ} :
      {A : Type ℓ} (a : Option A) (q : A → Bool)
      → holds (not3 (lift a q)) ≡ holds_for (λ s. not (q s)) a
  none_lift none q = refl
  none_lift (some a) q = refl

  exists_elements :
      (o : Option (List Chars)) (vals : List Chars)
      → (elim o [
        | none ↦ false
        | some es ↦ any (ilike_some collation f (like_wrap vals around)) es
      ])
        ≡ holds_for (any (contains_one collation f vals)) o
  exists_elements none vals = refl
  exists_elements (some es) vals = any_ext collation f _ _ (ilike_some-around collation f vals) es

  pub text_array-Means :
      (spec : FieldSpec) (op : String) (vals : List Chars) (args : List Bind)
      → Means collation f args
          (compile_text_array spec op vals args)
          (asks_text_array collation f spec op vals)
  unfolding compile_text_array evaluate
  text_array-Means spec op vals args =
      let es = f.elements spec.expr in
      let here = holds_for (any (contains_one collation f vals)) es in
      if-Means collation f args (str_eq op "any_of") _ _ (holds_for (any (member vals)) es) _
        (push-Means collation f args (texts vals) (overlaps spec.expr)
          (holds_for (any (member vals)) es)
          (λ binds n e. rw e (holds-lift collation f es (any (member vals)))))
        (if-Means collation f args (str_eq op "none_of") _ _
          (holds_for (λ l. not (any (member vals) l)) es) _
          (push-Means collation f args (texts vals) (λ n. negation (overlaps spec.expr n))
            (holds_for (λ l. not (any (member vals) l)) es)
            (λ binds n e. rw e (none_lift es (any (member vals)))))
          (if-Means collation f args (str_eq op "contains") _ _ here (not here)
            (push-Means collation f args (texts (like_wrap vals around)) (exists_ilike spec.expr)
              here (λ binds n e. rw e (exists_elements es vals)))
            (else_invalid collation f args (str_eq op "not_contains") _ _ (not here) (
              push-Means collation f args (texts (like_wrap vals around))
                (λ n. negation (exists_ilike spec.expr n)) (not here)
                (λ binds n e. rw e (ap not (exists_elements es vals)))))))

  pub target-Means :
      (op : String) (vals : List Chars) (args : List Bind)
      → Means collation f args (compile_target op vals args) (asks_target collation f op vals)
  unfolding compile_target evaluate
  target-Means op vals args =
      let seen = any (member vals) f.targets in
      if-Means collation f args (str_eq op "none_of") _ _ (not seen) seen
        (push-Means collation f args (texts vals) (λ n. negation (exists_target n)) (not seen)
          (λ binds n e. rw e refl))
        (push-Means collation f args (texts vals) exists_target seen (λ binds n e. rw e refl))
