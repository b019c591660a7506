-- ===== src/FindingQuery/Meaning.antt =====
-- What a findings filter asks of a finding, stated without SQL: OR of groups, AND of conditions, the
-- empty filter asking nothing.
pub mod Leaves
pub mod Texts
pub mod Moments
pub mod Times
pub mod Numbers
pub mod Conditions
pub mod Refines
use nuclei_security_center.Common.{
  ℕ, ◌/◌, String, Bool, true, false, not, ◌&&◌, ◌||◌, Option, none, some, List, [], ◌∷◌, str_eq,
  if◌then◌else◌, Chars, chars_eq, codes, leb, any, all, map,
}
use nuclei_security_center.Common.Int.{ℤ, int_eq, int_lt}
use nuclei_security_center.Login.Clients.{trim_space}
use nuclei_security_center.FindingQuery.{
  FindingCondition, FindingGroup, FindingQuery, FieldKind, FieldSpec, kind_enum, kind_text,
  kind_text_two, kind_text_array, kind_target, kind_time, kind_numeric, kind_bool,
  kind_nullable_enum, finding_fields, is_text_two, is_text_array,
}
use nuclei_security_center.FindingQuery.Like.{has_infix, starts_with}
use nuclei_security_center.FindingQuery.Compile.{
  GoLibrary, nanos_per_day, trim_non_empty, eq, neq, gt, gte, lt, lte, Comparison,
}
use nuclei_security_center.FindingQuery.Typed.{
  parse_filter_int, parse_filter_bool, only_value, two_values,
}
use nuclei_security_center.FindingQuery.Where.{lower_values}
use nuclei_security_center.FindingQuery.Rows.{
  Finding, Collation, member, int_test, bool_eq, is_blank, has_elements,
}

abbrev pub holds_for {ℓ} : {A : Type ℓ} → (A → Bool) → Option A → Bool
holds_for p none = false
holds_for p (some a) = p a

-- A value of a time field: an instant, or a day.
pub data Moment : Type 0 where
  at_instant on_day : ℕ → Moment

abbrev pub not_before : Moment → ℕ → Bool
not_before (at_instant lo) t = leb lo t
not_before (on_day d) t = leb d (t / nanos_per_day)

abbrev pub not_after : Moment → ℕ → Bool
not_after (at_instant hi) t = leb t hi
not_after (on_day d) t = leb (t / nanos_per_day) d

module _ (collation : Collation) (f : Finding) where
  abbrev pub field_text : FieldSpec → Option Chars
  field_text spec = elim (f.text spec.expr) [
    | none ↦ none
    | some s ↦ some (if spec.lowered then collation.sql_lower s else s)
  ]

  abbrev pub asks_enum : FieldSpec → String → List Chars → Bool
  asks_enum spec op vals =
      if str_eq op "any_of"
      then holds_for (member vals) (field_text spec)
      else not (holds_for (member vals) (field_text spec))

  -- The texts that a text field searches.
  abbrev pub searched : FieldSpec → List (Option Chars)
  searched spec =
      if is_text_two spec.kind
      then f.text spec.expr ∷ f.text spec.expr_b ∷ []
      else f.text spec.expr ∷ []

  abbrev pub contains_one : List Chars → Chars → Bool
  contains_one vals s = any (has_infix collation.fold s) vals

  abbrev pub starts_with_one : List Chars → Chars → Bool
  starts_with_one vals s = any (starts_with collation.fold s) vals

  -- A finding with no value is not one that does not contain.
  abbrev pub asks_text : FieldSpec → String → List Chars → Bool
  asks_text spec op vals =
      if str_eq op "contains"
      then any (holds_for (contains_one vals)) (searched spec)
      else if str_eq op "not_contains"
      then all (holds_for (λ s. not (contains_one vals s))) (searched spec)
      else any (holds_for (starts_with_one vals)) (searched spec)

  abbrev pub asks_text_array : FieldSpec → String → List Chars → Bool
  asks_text_array spec op vals =
      if str_eq op "any_of"
      then holds_for (any (member vals)) (f.elements spec.expr)
      else if str_eq op "none_of"
      then holds_for (λ es. not (any (member vals) es)) (f.elements spec.expr)
      else if str_eq op "contains"
      then holds_for (any (contains_one vals)) (f.elements spec.expr)
      else not (holds_for (any (contains_one vals)) (f.elements spec.expr))

  abbrev pub asks_target : String → List Chars → Bool
  asks_target op vals =
      if str_eq op "none_of" then not (any (member vals) f.targets) else any (member vals) f.targets

abbrev pub in_range : Option Moment → Option Moment → ℕ → Bool
in_range lo hi t = holds_for (λ m. not_before m t) lo && holds_for (λ m. not_after m t) hi

-- A NULL differs from every number.
abbrev pub asks_integer : String → Option ℤ → ℤ → Bool
asks_integer op x n =
    if str_eq op "eq"
    then holds_for (λ i. int_eq i n) x
    else if str_eq op "neq"
    then not (holds_for (λ i. int_eq i n) x)
    else if str_eq op "gt"
    then holds_for (λ i. int_lt n i) x
    else if str_eq op "gte"
    then holds_for (λ i. not (int_lt i n)) x
    else if str_eq op "lt"
    then holds_for (λ i. int_lt i n) x
    else holds_for (λ i. not (int_lt n i)) x

abbrev pub asks_boolean : String → Option Bool → Bool → Bool
asks_boolean op x b =
    if str_eq op "is" then holds_for (bool_eq b) x else not (holds_for (bool_eq b) x)

module _ (go : GoLibrary) where
  abbrev pub moment_of : Chars → Option Moment
  moment_of [] = none
  moment_of (c ∷ s) = elim (go.parse_instant (c ∷ s)) [
    | some t ↦ some (at_instant t)
    | none ↦ elim (go.parse_date (c ∷ s)) [ some d ↦ some (on_day d) | none ↦ none ]
  ]

  abbrev pub moment : Chars → Option Moment
  moment s = moment_of (trim_space s)

module _ (go : GoLibrary) (collation : Collation) (f : Finding) where
  abbrev pub asks_one_time : (Moment → ℕ → Bool) → FieldSpec → Option Chars → Bool
  asks_one_time p spec none = false
  asks_one_time p spec (some v) =
      holds_for (λ t. holds_for (λ m. p m t) (moment go v)) (f.time spec.expr)

  abbrev pub asks_two_times : FieldSpec → Option (Chars × Chars) → Bool
  asks_two_times spec none = false
  asks_two_times spec (some (v, w)) =
      holds_for (in_range (moment go v) (moment go w)) (f.time spec.expr)

  abbrev pub asks_time : FieldSpec → String → List Chars → Bool
  asks_time spec op vals =
      if str_eq op "after"
      then asks_one_time not_before spec (only_value vals)
      else if str_eq op "before"
      then asks_one_time not_after spec (only_value vals)
      else asks_two_times spec (two_values vals)

  abbrev pub asks_number : FieldSpec → String → Option Chars → Bool
  asks_number spec op none = false
  asks_number spec op (some v) =
      holds_for (asks_integer op (f.number spec.expr)) (parse_filter_int go v)

  abbrev pub asks_bool : FieldSpec → String → Option Chars → Bool
  asks_bool spec op none = false
  asks_bool spec op (some v) =
      holds_for (asks_boolean op (f.truth spec.expr)) (parse_filter_bool go v)

  abbrev pub asks_kind : FieldKind → FieldSpec → String → List Chars → Bool
  asks_kind k spec op vals = elim k [
    | kind_enum ↦ asks_enum collation f spec op vals
    | kind_nullable_enum ↦ asks_enum collation f spec op vals
    | kind_text ↦ asks_text collation f spec op vals
    | kind_text_two ↦ asks_text collation f spec op vals
    | kind_text_array ↦ asks_text_array collation f spec op vals
    | kind_target ↦ asks_target collation f op vals
    | kind_time ↦ asks_time spec op vals
    | kind_numeric ↦ asks_number spec op (only_value vals)
    | kind_bool ↦ asks_bool spec op (only_value vals)
  ]

  abbrev pub asks_values : FieldSpec → String → List Chars → Bool
  asks_values spec op vals = asks_kind spec.kind spec op vals

  abbrev pub is_empty : FieldSpec → Bool
  is_empty spec =
      if is_text_array spec.kind
      then not (has_elements (f.elements spec.expr))
      else is_blank (f.text spec.expr)

  abbrev pub asks_spec : FieldSpec → FindingCondition → Bool
  asks_spec spec c =
      if str_eq c.op "is_empty"
      then is_empty spec
      else if str_eq c.op "is_not_empty"
      then not (is_empty spec)
      else asks_values spec c.op (lower_values go spec (trim_non_empty c.values))

  abbrev pub asks_field : Option FieldSpec → FindingCondition → Bool
  asks_field none c = false
  asks_field (some spec) c = asks_spec spec c

  unfoldable pub asks_condition : FindingCondition → Bool
  asks_condition c = asks_field (finding_fields c.field) c

  abbrev pub keep_group :
      List FindingCondition → List (List FindingCondition) → List (List FindingCondition)
  keep_group [] gs = gs
  keep_group (c ∷ cs) gs = (c ∷ cs) ∷ gs

  abbrev pub non_empty_groups : List FindingGroup → List (List FindingCondition)
  non_empty_groups [] = []
  non_empty_groups (g ∷ gs) = keep_group g.conditions (non_empty_groups gs)

  abbrev pub asks_some : List (List FindingCondition) → Bool
  asks_some [] = true
  asks_some (cs ∷ gs) = any (all asks_condition) (cs ∷ gs)

  -- The groups without conditions count for nothing.
  unfoldable pub asks : FindingQuery → Bool
  asks q = asks_some (non_empty_groups q.groups)
