-- ===== src/FindingQuery/Where.antt =====
-- `compileCondition`, `buildFindingWhere` and `ValidateFindingQuery` of internal/store/findingquery.go.
use nuclei_security_center.Common.{
  ℕ, suc, String, true, false, Option, none, some, List, [], ◌∷◌, map, str_eq, if◌then◌else◌, Chars,
  ltb,
}
use nuclei_security_center.FindingQuery.{
  FindingCondition, FindingGroup, FindingQuery, kind_enum, kind_text, kind_text_two,
  kind_text_array, kind_target, kind_time, kind_numeric, kind_bool, kind_nullable_enum, FieldSpec,
  QueryError, finding_fields, ops_for_kind, validate_finding_sort, max_conditions,
  too_many_conditions, unknown_field, operator_not_valid, needs_value,
}
use nuclei_security_center.FindingQuery.Compile.{
  GoLibrary, Bind, Sql, Compiled, compiled, invalid, validate_filter_values, trim_non_empty,
  empty_expr, compile_enum, compile_text, compile_text_array, compile_target,
}
use nuclei_security_center.FindingQuery.Typed.{
  compile_time_condition, compile_numeric_condition, compile_bool_condition,
}

-- A group's conditions, joined by AND; the groups, joined by OR.
pub data Where : Type 0 where
  where_clause : List Bind → List (List Sql) → Where
  refused : QueryError → Where

pub data Group : Type 0 where
  group_clause : ℕ → List Bind → List Sql → Group
  group_refused : QueryError → Group

unfoldable pub add_condition : Sql → Group → Group
add_condition q (group_clause n args qs) = group_clause n args (q ∷ qs)
add_condition q (group_refused e) = group_refused e

-- A group without conditions adds no clause.
unfoldable pub add_group : List Sql → Where → Where
add_group [] w = w
add_group (q ∷ qs) (where_clause args clauses) = where_clause args ((q ∷ qs) ∷ clauses)
add_group (q ∷ qs) (refused e) = refused e

module _ (go : GoLibrary) where
  unfoldable pub lower_values : FieldSpec → List Chars → List Chars
  lower_values spec vals = if spec.lowered then map go.to_lower vals else vals

  -- The switch over the kind.
  unfoldable pub compile_kind : FieldSpec → String → List Chars → List Bind → Compiled
  unfolding compile_enum compile_text compile_text_array compile_target compile_time_condition
      compile_numeric_condition compile_bool_condition
  compile_kind spec op vals args = elim spec.kind [
    | kind_enum ↦ compile_enum spec op vals args
    | kind_nullable_enum ↦ compile_enum spec op vals args
    | kind_text ↦ compile_text spec op vals args
    | kind_text_two ↦ compile_text spec op vals args
    | kind_text_array ↦ compile_text_array spec op vals args
    | kind_target ↦ compile_target op vals args
    | kind_time ↦ compile_time_condition go spec.expr op vals args
    | kind_numeric ↦ compile_numeric_condition go spec.expr op vals args
    | kind_bool ↦ compile_bool_condition go spec.expr op vals args
  ]

  unfoldable pub compile_values : FieldSpec → String → List Chars → List Bind → Compiled
  unfolding compile_kind lower_values
  compile_values spec op [] args = invalid needs_value
  compile_values spec op (v ∷ vals) args = compile_kind spec op (lower_values spec (v ∷ vals)) args

  unfoldable pub compile_checked : FieldSpec → String → List Chars → List Bind → Compiled
  unfolding compile_values trim_non_empty empty_expr
  compile_checked spec op values args =
      if str_eq op "is_empty"
      then compiled args (empty_expr spec true)
      else if str_eq op "is_not_empty"
      then compiled args (empty_expr spec false)
      else compile_values spec op (trim_non_empty values) args

  unfoldable pub compile_spec : FieldSpec → FindingCondition → List Bind → Compiled
  unfolding compile_checked validate_filter_values ops_for_kind
  compile_spec spec c args =
      if ops_for_kind spec.kind c.op
      then elim (validate_filter_values c.values) [
        | some e ↦ invalid e
        | none ↦ compile_checked spec c.op c.values args
      ]
      else invalid operator_not_valid

  unfoldable pub compile_condition : FindingCondition → List Bind → Compiled
  unfolding compile_spec finding_fields
  compile_condition c args = elim (finding_fields c.field) [
    | none ↦ invalid unknown_field
    | some spec ↦ compile_spec spec c args
  ]

  -- The loop over a group's conditions, with the conditions counted so far.
  unfoldable pub build_group : List FindingCondition → ℕ → List Bind → Group
  unfolding compile_condition add_condition
  build_group [] n args = group_clause n args []
  build_group (c ∷ cs) n args =
      if ltb max_conditions (suc n)
      then group_refused too_many_conditions
      else elim (compile_condition c args) [
        | invalid e ↦ group_refused e
        | compiled pushed q ↦ add_condition q (build_group cs (suc n) pushed)
      ]

  unfoldable pub build_groups : List FindingGroup → ℕ → List Bind → Where
  unfolding build_group add_group
  build_groups [] n args = where_clause args []
  build_groups (g ∷ gs) n args = elim (build_group g.conditions n args) [
    | group_refused e ↦ refused e
    | group_clause m pushed qs ↦ add_group qs (build_groups gs m pushed)
  ]

  unfoldable pub build_finding_where : FindingQuery → List Bind → Where
  unfolding build_groups
  build_finding_where q args = build_groups q.groups 0 args

  unfoldable pub validate_finding_query : FindingQuery → Option QueryError
  unfolding build_finding_where validate_finding_sort
  validate_finding_query q = elim (validate_finding_sort q.sort q.order) [
    | some e ↦ some e
    | none ↦ elim (build_finding_where q []) [
      | refused e ↦ some e
      | where_clause args clauses ↦ none
    ]
  ]
