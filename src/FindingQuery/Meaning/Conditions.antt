-- ===== src/FindingQuery/Meaning/Conditions.antt =====
-- The clause of a condition selects what the condition asks, whatever its kind.
use nuclei_security_center.Common.{
  ◌≡◌, refl, sym, String, Bool, true, false, not, List, [], ◌∷◌, append-nil, str_eq, Chars,
  Bool-cases, Option-cases, inl, inr,
}
use nuclei_security_center.FindingQuery.{
  FindingCondition, FieldKind, FieldSpec, kind_enum, kind_text, kind_text_two, kind_text_array,
  kind_target, kind_time, kind_numeric, kind_bool, kind_nullable_enum, is_text_array,
  finding_fields, ops_for_kind,
}
use nuclei_security_center.FindingQuery.Compile.{
  GoLibrary, Bind, compiled, empty_expr, trim_non_empty, validate_filter_values, compile_enum,
  compile_text, compile_text_array, compile_target,
}
use nuclei_security_center.FindingQuery.Typed.{
  compile_time_condition, compile_numeric_condition, compile_bool_condition,
}
use nuclei_security_center.FindingQuery.Where.{
  lower_values, compile_kind, compile_values, compile_checked, compile_spec, compile_condition,
}
use nuclei_security_center.FindingQuery.Rows.{Finding, Collation, has_elements, evaluate}
use nuclei_security_center.FindingQuery.Meaning.{
  asks_kind, asks_values, asks_spec, asks_condition, is_empty,
}
use nuclei_security_center.FindingQuery.Meaning.Leaves.{Means, if-Means, enum-Means}
use nuclei_security_center.FindingQuery.Meaning.Texts.{text-Means, text_array-Means, target-Means}
use nuclei_security_center.FindingQuery.Meaning.Times.{time-Means}
use nuclei_security_center.FindingQuery.Meaning.Numbers.{number-Means, bool-Means}

not-not : (b : Bool) → b ≡ not (not b)
not-not true = refl
not-not false = refl

module _ (go : GoLibrary) (collation : Collation) (f : Finding) where
  empty-Means :
      (spec : FieldSpec) (args : List Bind)
      → Means collation f args (compiled args (empty_expr spec true)) (is_empty go collation f spec)
  unfolding empty_expr evaluate
  empty-Means spec args = elim (Bool-cases (is_text_array spec.kind)) [
    | inl p ↦ rw (p) ([], sym (append-nil args), λ rest. refl)
    | inr p ↦ rw (p) ([], sym (append-nil args), λ rest. refl)
  ]

  not_empty-Means :
      (spec : FieldSpec) (args : List Bind)
      → Means collation f args
          (compiled args (empty_expr spec false))
          (not (is_empty go collation f spec))
  unfolding empty_expr evaluate
  not_empty-Means spec args = elim (Bool-cases (is_text_array spec.kind)) [
    | inl p ↦
        rw (p) ([], sym (append-nil args), λ rest. not-not (has_elements (f.elements spec.expr)))
    | inr p ↦ rw (p) ([], sym (append-nil args), λ rest. refl)
  ]

  kind-Means :
      (spec : FieldSpec) (op : String) (vals : List Chars) (args : List Bind)
      → Means collation f args
          (compile_kind go spec op vals args)
          (asks_values go collation f spec op vals)
  unfolding compile_kind
  kind-Means spec op vals args = by_kind spec.kind
    where
      by_kind :
          (k : FieldKind)
          → Means collation f args
              (elim k [
                | kind_enum ↦ compile_enum spec op vals args
                | kind_nullable_enum ↦ compile_enum spec op vals args
                | kind_text ↦ compile_text spec op vals args
                | kind_text_two ↦ compile_text spec op vals args
                | kind_text_array ↦ compile_text_array spec op vals args
                | kind_target ↦ compile_target op vals args
                | kind_time ↦ compile_time_condition go spec.expr op vals args
                | kind_numeric ↦ compile_numeric_condition go spec.expr op vals args
                | kind_bool ↦ compile_bool_condition go spec.expr op vals args
              ])
              (asks_kind go collation f k spec op vals)
      by_kind kind_enum = enum-Means collation f spec op vals args
      by_kind kind_nullable_enum = enum-Means collation f spec op vals args
      by_kind kind_text = text-Means collation f spec op vals args
      by_kind kind_text_two = text-Means collation f spec op vals args
      by_kind kind_text_array = text_array-Means collation f spec op vals args
      by_kind kind_target = target-Means collation f op vals args
      by_kind kind_time = time-Means collation f go spec op vals args
      by_kind kind_numeric = number-Means collation f go spec op vals args
      by_kind kind_bool = bool-Means collation f go spec op vals args

  values-Means :
      (spec : FieldSpec) (op : String) (vals : List Chars) (args : List Bind)
      → Means collation f args
          (compile_values go spec op vals args)
          (asks_values go collation f spec op (lower_values go spec vals))
  unfolding compile_values
  values-Means spec op [] args = tt
  values-Means spec op (v ∷ vals) args = kind-Means spec op (lower_values go spec (v ∷ vals)) args

  checked-Means :
      (spec : FieldSpec) (c : FindingCondition) (args : List Bind)
      → Means collation f args
          (compile_checked go spec c.op c.values args)
          (asks_spec go collation f spec c)
  unfolding compile_checked
  checked-Means spec c args =
      if-Means collation f args (str_eq c.op "is_empty") _ _ (is_empty go collation f spec) _
        (empty-Means spec args)
        (if-Means collation f args (str_eq c.op "is_not_empty") _ _ _ _ (not_empty-Means spec args)
          (values-Means spec c.op (trim_non_empty c.values) args))

  spec-Means :
      (spec : FieldSpec) (c : FindingCondition) (args : List Bind)
      → Means collation f args (compile_spec go spec c args) (asks_spec go collation f spec c)
  unfolding compile_spec
  spec-Means spec c args = elim (Bool-cases (ops_for_kind spec.kind c.op)) [
    | inr p ↦ rw (compile_spec, p) tt
    | inl p ↦ elim (Option-cases (validate_filter_values c.values)) [
      | inl e ↦ rw (compile_spec, p, e) (checked-Means spec c args)
      | inr (x, e) ↦ rw (compile_spec, p, e) tt
    ]
  ]

  pub condition-Means :
      (c : FindingCondition) (args : List Bind)
      → Means collation f args (compile_condition go c args) (asks_condition go collation f c)
  unfolding compile_condition asks_condition
  condition-Means c args = elim (Option-cases (finding_fields c.field)) [
    | inl e ↦ rw (compile_condition, e) tt
    | inr (spec, e) ↦ rw (compile_condition, e) (spec-Means spec c args)
  ]
