-- ===== src/FindingQuery/Meaning/Numbers.antt =====
-- The clauses on numbers and booleans.
use nuclei_security_center.Common.{
  ◌≡◌, refl, String, Bool, true, false, not, Option, none, some, List, str_eq, if◌then◌else◌, Chars,
  Bool-cases, inl, inr,
}
use nuclei_security_center.Common.Int.{ℤ, int_eq}
use nuclei_security_center.FindingQuery.{Expr, FieldSpec, wrong_number_of_values}
use nuclei_security_center.FindingQuery.Compile.{
  GoLibrary, Bind, integer, boolean, Comparison, eq, neq, gt, gte, lt, lte, invalid, number_compare,
  bool_compare,
}
use nuclei_security_center.FindingQuery.Typed.{
  numeric_comparison, bool_comparison, compile_integer, compile_boolean, compile_numeric_condition,
  compile_bool_condition, parse_filter_int, parse_filter_bool, only_value,
}
use nuclei_security_center.FindingQuery.Rows.{
  Finding, Collation, bool_eq, int_test, evaluate, distinct,
}
use nuclei_security_center.FindingQuery.Meaning.Leaves.{Means, push-Means, holds-lift}
use nuclei_security_center.FindingQuery.Meaning.{
  holds_for, asks_integer, asks_number, asks_boolean, asks_bool,
}

distinct_iff {ℓ} : {A : Type ℓ} (p : A → Bool) (o : Option A) → distinct p o ≡ not (holds_for p o)
distinct_iff p none = refl
distinct_iff p (some a) = refl

module _ (collation : Collation) (f : Finding) where
  -- One comparison, on its own.
  abbrev number_holds : Comparison → Option ℤ → ℤ → Bool
  number_holds neq x n = not (holds_for (λ i. int_eq i n) x)
  number_holds cmp x n = holds_for (λ i. int_test cmp i n) x

  compare-Means :
      (cmp : Comparison) (col : Expr) (n : ℤ) (args : List Bind)
      → Means collation f args
          (compile_integer col (some cmp) (some n) args)
          (number_holds cmp (f.number col) n)
  unfolding compile_integer evaluate
  compare-Means eq col n args =
      push-Means collation f args (integer n) (number_compare eq col)
        (number_holds eq (f.number col) n)
        (λ binds k e. rw e (holds-lift collation f (f.number col) _))
  compare-Means neq col n args =
      push-Means collation f args (integer n) (number_compare neq col)
        (number_holds neq (f.number col) n) (λ binds k e. rw e (distinct_iff _ (f.number col)))
  compare-Means gt col n args =
      push-Means collation f args (integer n) (number_compare gt col)
        (number_holds gt (f.number col) n)
        (λ binds k e. rw e (holds-lift collation f (f.number col) _))
  compare-Means gte col n args =
      push-Means collation f args (integer n) (number_compare gte col)
        (number_holds gte (f.number col) n)
        (λ binds k e. rw e (holds-lift collation f (f.number col) _))
  compare-Means lt col n args =
      push-Means collation f args (integer n) (number_compare lt col)
        (number_holds lt (f.number col) n)
        (λ binds k e. rw e (holds-lift collation f (f.number col) _))
  compare-Means lte col n args =
      push-Means collation f args (integer n) (number_compare lte col)
        (number_holds lte (f.number col) n)
        (λ binds k e. rw e (holds-lift collation f (f.number col) _))

  comparison-Means :
      (t : Bool) (cmp : Comparison) (o : Option Comparison) (col : Expr) (n : ℤ) (b : Bool)
      (args : List Bind)
      → Means collation f args (compile_integer col o (some n) args) b
      → Means collation f args
          (compile_integer col (if t then some cmp else o) (some n) args)
          (if t then number_holds cmp (f.number col) n else b)
  comparison-Means true cmp o col n b args h = compare-Means cmp col n args
  comparison-Means false cmp o col n b args h = h

  last-Means :
      (t : Bool) (col : Expr) (n : ℤ) (args : List Bind)
      → Means collation f args
          (compile_integer col (if t then some lte else none) (some n) args)
          (number_holds lte (f.number col) n)
  unfolding compile_integer
  last-Means true col n args = compare-Means lte col n args
  last-Means false col n args = tt

  integer-Means :
      (op : String) (col : Expr) (o : Option ℤ) (args : List Bind)
      → Means collation f args
          (compile_integer col (numeric_comparison op) o args)
          (holds_for (asks_integer op (f.number col)) o)
  unfolding compile_integer numeric_comparison
  integer-Means op col none args = tt
  integer-Means op col (some n) args = comparison-Means (str_eq op "eq") eq _ col n _ args (
      comparison-Means (str_eq op "neq") neq _ col n _ args (
        comparison-Means (str_eq op "gt") gt _ col n _ args (
          comparison-Means (str_eq op "gte") gte _ col n _ args (
            comparison-Means (str_eq op "lt") lt _ col n _ args
              (last-Means (str_eq op "lte") col n args)))))

  pub number-Means :
      (go : GoLibrary) (spec : FieldSpec) (op : String) (vals : List Chars) (args : List Bind)
      → Means collation f args
          (compile_numeric_condition go spec.expr op vals args)
          (asks_number go collation f spec op (only_value vals))
  unfolding compile_numeric_condition
  number-Means go spec op vals args = go_on (only_value vals)
    where
      go_on :
          (o : Option Chars)
          → Means collation f args
              (elim o [
                | none ↦ invalid wrong_number_of_values
                | some v ↦
                    compile_integer spec.expr (numeric_comparison op) (parse_filter_int go v) args
              ])
              (asks_number go collation f spec op o)
      go_on none = tt
      go_on (some v) = integer-Means op spec.expr (parse_filter_int go v) args

  boolean-Means :
      (op : String) (col : Expr) (o : Option Bool) (args : List Bind)
      → Means collation f args
          (compile_boolean col (bool_comparison op) o args)
          (holds_for (asks_boolean op (f.truth col)) o)
  unfolding compile_boolean bool_comparison evaluate
  boolean-Means op col none args = tt
  boolean-Means op col (some b) args = elim (Bool-cases (str_eq op "is")) [
    | inl p ↦
        rw (bool_comparison, p)
          (push-Means collation f args (boolean b) (bool_compare eq col)
            (holds_for (bool_eq b) (f.truth col))
            (λ binds k e. rw e (holds-lift collation f (f.truth col) (bool_eq b))))
    | inr p ↦ elim (Bool-cases (str_eq op "is_not")) [
      | inl q ↦
          rw (bool_comparison, p, q)
            (push-Means collation f args (boolean b) (bool_compare neq col)
              (not (holds_for (bool_eq b) (f.truth col)))
              (λ binds k e. rw e (distinct_iff (bool_eq b) (f.truth col))))
      | inr q ↦ rw (bool_comparison, p, q) tt
    ]
  ]

  pub bool-Means :
      (go : GoLibrary) (spec : FieldSpec) (op : String) (vals : List Chars) (args : List Bind)
      → Means collation f args
          (compile_bool_condition go spec.expr op vals args)
          (asks_bool go collation f spec op (only_value vals))
  unfolding compile_bool_condition
  bool-Means go spec op vals args = go_on (only_value vals)
    where
      go_on :
          (o : Option Chars)
          → Means collation f args
              (elim o [
                | none ↦ invalid wrong_number_of_values
                | some v ↦
                    compile_boolean spec.expr (bool_comparison op) (parse_filter_bool go v) args
              ])
              (asks_bool go collation f spec op o)
      go_on none = tt
      go_on (some v) = boolean-Means op spec.expr (parse_filter_bool go v) args
