-- ===== src/FindingQuery/Meaning/Leaves.antt =====
-- The clause of one condition selects what the condition asks.
use nuclei_security_center.Common.{
  ℕ, suc, ◌≡◌, refl, String, Bool, true, false, not, Option, none, some, List, [], ◌∷◌, ◌++◌,
  append_assoc, str_eq, if◌then◌else◌, Chars, is_some, length, length-append, arith, Bool-cases,
  Option-cases, inl, inr,
}
use nuclei_security_center.FindingQuery.{FieldSpec}
use nuclei_security_center.FindingQuery.Compile.{
  Bind, texts, Sql, Compiled, compiled, invalid, push, compile_enum, enum_column, equal_any,
  null_or_not_equal_any,
}
use nuclei_security_center.FindingQuery.Rows.{
  Finding, Collation, member, nth, bound, holds, evaluate, lift, not3, or3, column_text,
}
use nuclei_security_center.FindingQuery.Meaning.{holds_for, asks_enum, field_text}

-- A valid clause only appends to the bound values, and selects a row exactly as said, whatever is
-- bound after them.
abbrev pub Means : Collation → Finding → List Bind → Compiled → Bool → Type 0
Means collation f args (invalid e) b = Unit
Means collation f args (compiled pushed q) b =
    (more : List Bind) × (pushed ≡ args ++ more)
    × ((rest : List Bind) → holds (evaluate collation f (pushed ++ rest) q) ≡ b)

nth-append :
    (args : List Bind) (v : Bind) (rest : List Bind)
    → nth (args ++ (v ∷ rest)) (length args) ≡ some v
nth-append [] v rest = refl
nth-append (a ∷ args) v rest = nth-append args v rest

pub bound-push :
    (args : List Bind) (v : Bind) (rest : List Bind)
    → bound ((args ++ (v ∷ [])) ++ rest) (length (args ++ (v ∷ []))) ≡ some v
bound-push args v rest =
    let one : length (args ++ (v ∷ [])) ≡ suc (length args) =
      omega (arith, length-append args (v ∷ [])) in
    rw (one, append_assoc args (v ∷ []) rest) (nth-append args v rest)

module _ (collation : Collation) (f : Finding) where
  pub push-Means :
      (args : List Bind) (v : Bind) (sql : ℕ → Sql) (b : Bool)
      → ((binds : List Bind) (n : ℕ)
          → bound binds n ≡ some v
          → holds (evaluate collation f binds (sql n)) ≡ b)
      → Means collation f args (push args v sql) b
  unfolding push
  push-Means args v sql b h = (
    v ∷ [],
    refl,
    λ rest. h ((args ++ (v ∷ [])) ++ rest) (length (args ++ (v ∷ []))) (bound-push args v rest),
  )

  pub if-Means :
      (args : List Bind) (t : Bool) (x y : Compiled) (a b : Bool)
      → Means collation f args x a
      → Means collation f args y b
      → Means collation f args (if t then x else y) (if t then a else b)
  if-Means args true x y a b h k = h
  if-Means args false x y a b h k = k

  pub else_invalid :
      (args : List Bind) (t : Bool) (x : Compiled) (e : _) (b : Bool)
      → Means collation f args x b
      → Means collation f args (if t then x else invalid e) b
  else_invalid args true x e b h = h
  else_invalid args false x e b h = tt

  pub holds-lift {ℓ} : {A : Type ℓ} (o : Option A) (p : A → Bool) → holds (lift o p) ≡ holds_for p o
  holds-lift none p = refl
  holds-lift (some a) p = refl

  column_text-enum_column :
      (spec : FieldSpec) → column_text collation f (enum_column spec) ≡ field_text collation f spec
  unfolding enum_column
  column_text-enum_column spec = elim (Bool-cases spec.lowered) [
    | inl p ↦ elim (Option-cases (f.text spec.expr)) [
      | inl e ↦ rw (p, field_text, e) refl
      | inr (s, e) ↦ rw (p, field_text, e, p) refl
    ]
    | inr p ↦ elim (Option-cases (f.text spec.expr)) [
      | inl e ↦ rw (p, field_text, e) refl
      | inr (s, e) ↦ rw (p, field_text, e, p) refl
    ]
  ]

  not_among {ℓ} :
      {A : Type ℓ} (o : Option A) (p : A → Bool)
      → holds (or3 (some (not (is_some o))) (not3 (lift o p))) ≡ not (holds_for p o)
  not_among none p = refl
  not_among (some a) p = ground arith

  pub enum-Means :
      (spec : FieldSpec) (op : String) (vals : List Chars) (args : List Bind)
      → Means collation f args (compile_enum spec op vals args) (asks_enum collation f spec op vals)
  unfolding compile_enum evaluate
  enum-Means spec op vals args =
      let o = column_text collation f (enum_column spec) in
      let among = holds_for (member vals) (field_text collation f spec) in
      if-Means args (str_eq op "any_of") _ _ among (not among)
        (push-Means args (texts vals) (equal_any (enum_column spec)) among (λ binds n e.
          rw (e, column_text-enum_column spec)
            (holds-lift (field_text collation f spec) (member vals))))
        (else_invalid args (str_eq op "none_of") _ _ (not among) (
          push-Means args (texts vals) (null_or_not_equal_any (enum_column spec)) (not among)
            (λ binds n e.
              rw (e, column_text-enum_column spec)
                (not_among (field_text collation f spec) (member vals)))))
