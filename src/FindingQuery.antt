-- ===== src/FindingQuery.antt =====
-- The findings filter, internal/store/findingquery.go: what a request may ask, and the allowlists.
-- Names of fields and operators are native strings, values are code points. SQL expressions of the
-- table are constructors of `Expr`, named after the Go constant or the column.
pub mod Like
pub mod Compile
pub mod Typed
pub mod Where
pub mod Rows
pub mod Meaning
pub mod Bounds
use nuclei_security_center.Common.{
  ℕ, String, Bool, true, false, Option, none, some, List, [], ◌∷◌, ◌||◌, str_eq, if◌then◌else◌,
  Chars,
}

pub record FindingCondition : Type 0 where
  pub field : String
  pub op : String
  pub values : List Chars

pub record FindingGroup : Type 0 where
  pub conditions : List FindingCondition

pub record FindingQuery : Type 0 where
  pub groups : List FindingGroup
  pub sort : String
  pub order : String

abbrev pub max_conditions : ℕ
max_conditions = 60

abbrev pub max_values_per_condition : ℕ
max_values_per_condition = 100

abbrev pub max_filter_value_bytes : ℕ
max_filter_value_bytes = 256

pub data FieldKind : Type 0 where
  kind_enum kind_text kind_text_two kind_text_array : FieldKind
  kind_target kind_time kind_numeric kind_bool kind_nullable_enum : FieldKind

abbrev pub is_text_two : FieldKind → Bool
is_text_two kind_text_two = true
is_text_two _ = false

abbrev pub is_text_array : FieldKind → Bool
is_text_array kind_text_array = true
is_text_array _ = false

-- `no_expr` is the empty text.
pub data Expr : Type 0 where
  l_name l_template_id eff_sev_expr lc_effective_expr l_disposition l_host : Expr
  l_matcher_name l_extracted_results l_matched_at l_type l_cve l_tags : Expr
  l_first_seen_at l_last_seen_at l_recast_severity l_severity : Expr
  l_accept_expires_at l_times_mitigated occurrence_count endpoint_key_set no_expr : Expr

pub record FieldSpec : Type 0 where
  pub kind : FieldKind
  pub expr : Expr
  pub expr_b : Expr
  pub lowered : Bool

abbrev plain : FieldKind → Expr → FieldSpec
plain k e = record { kind = k; expr = e; expr_b = no_expr; lowered = false }

abbrev lower : FieldKind → Expr → FieldSpec
lower k e = record { kind = k; expr = e; expr_b = no_expr; lowered = true }

unfoldable pub finding_field_table : List (String × FieldSpec)
finding_field_table =
    (
      "name",
      record { kind = kind_text_two; expr = l_name; expr_b = l_template_id; lowered = false },
    )
    ∷ ("severity", lower kind_enum eff_sev_expr)
    ∷ ("state", plain kind_enum lc_effective_expr)
    ∷ ("disposition", plain kind_enum l_disposition)
    ∷ ("target", plain kind_target no_expr)
    ∷ ("host", plain kind_text l_host)
    ∷ ("matcher", plain kind_text l_matcher_name)
    ∷ ("extracted_result", plain kind_text_array l_extracted_results)
    ∷ ("matched_at", plain kind_text l_matched_at)
    ∷ ("type", lower kind_enum l_type)
    ∷ ("cve", plain kind_text_array l_cve)
    ∷ ("tag", plain kind_text_array l_tags)
    ∷ ("first_seen_at", plain kind_time l_first_seen_at)
    ∷ ("last_seen_at", plain kind_time l_last_seen_at)
    ∷ ("recast_severity", lower kind_nullable_enum l_recast_severity)
    ∷ ("observed_severity", lower kind_enum l_severity)
    ∷ ("accept_expires_at", plain kind_time l_accept_expires_at)
    ∷ ("times_mitigated", plain kind_numeric l_times_mitigated)
    ∷ ("occurrence_count", plain kind_numeric occurrence_count)
    ∷ ("auto_mitigation_eligible", plain kind_bool endpoint_key_set)
    ∷ []

unfoldable pub lookup_field : List (String × FieldSpec) → String → Option FieldSpec
lookup_field [] f = none
lookup_field ((g, spec) ∷ table) f = if str_eq f g then some spec else lookup_field table f

unfoldable pub finding_fields : String → Option FieldSpec
unfolding finding_field_table lookup_field
finding_fields f = lookup_field finding_field_table f

abbrev one_of : List String → String → Bool
one_of [] s = false
one_of (t ∷ ts) s = str_eq s t || one_of ts s

unfoldable pub ops_for_kind : FieldKind → String → Bool
ops_for_kind kind_enum = one_of ("any_of" ∷ "none_of" ∷ [])
ops_for_kind kind_text =
    one_of ("contains" ∷ "not_contains" ∷ "starts_with" ∷ "is_empty" ∷ "is_not_empty" ∷ [])
ops_for_kind kind_text_two =
    one_of ("contains" ∷ "not_contains" ∷ "starts_with" ∷ "is_empty" ∷ "is_not_empty" ∷ [])
ops_for_kind kind_text_array =
    one_of ("any_of" ∷ "none_of" ∷ "contains" ∷ "not_contains" ∷ "is_empty" ∷ "is_not_empty" ∷ [])
ops_for_kind kind_target = one_of ("any_of" ∷ "none_of" ∷ [])
ops_for_kind kind_time = one_of ("before" ∷ "after" ∷ "between" ∷ [])
ops_for_kind kind_numeric = one_of ("eq" ∷ "neq" ∷ "gt" ∷ "gte" ∷ "lt" ∷ "lte" ∷ [])
ops_for_kind kind_bool = one_of ("is" ∷ "is_not" ∷ [])
ops_for_kind kind_nullable_enum = one_of ("any_of" ∷ "none_of" ∷ "is_empty" ∷ "is_not_empty" ∷ [])

-- The errors, by the message's kind.
pub data QueryError : Type 0 where
  too_many_conditions unknown_field operator_not_valid too_many_values value_too_long : QueryError
  needs_value wrong_number_of_values invalid_time inverted_range invalid_integer : QueryError
  invalid_boolean unknown_sort_field order_requires_sort bad_order : QueryError

-- The keys of `findingSortColumns`.
unfoldable pub is_sort_column : String → Bool
is_sort_column = one_of (
    "first_seen_at" ∷ "last_seen_at" ∷ "severity" ∷ "matched_at" ∷ "name" ∷ "times_mitigated"
    ∷ "state" ∷ "detection_state" ∷ "host" ∷ "matcher_name" ∷ [])

unfoldable pub validate_finding_sort : String → String → Option QueryError
unfolding is_sort_column
validate_finding_sort sort order =
    if str_eq sort ""
    then (if str_eq order "" then none else some order_requires_sort)
    else if is_sort_column sort
    then (if one_of ("" ∷ "asc" ∷ "desc" ∷ []) order then none else some bad_order)
    else some unknown_sort_field
