-- ===== src/Examples/Queries.antt =====
-- Runs of the findings filter.
use nuclei_security_center.Common.{
  ◌≡◌, refl, ◌≤◌, true, false, none, some, List, [], ◌∷◌, ◌++◌, map, Chars, codes, chars_eq,
  if◌then◌else◌, length, all,
}
use nuclei_security_center.Common.Int.{pos}
use nuclei_security_center.FindingQuery.{
  l_host, eff_sev_expr, FindingQuery, finding_field_table, lookup_field, finding_fields,
  ops_for_kind,
}
use nuclei_security_center.FindingQuery.Like.{
  replace_all, like_wrap, escape_like, lit, tokens, ilike, wrap_one, around, has_infix,
}
use nuclei_security_center.FindingQuery.Like.Literal.{tokens-escape_like, ilike-has_infix}
use nuclei_security_center.FindingQuery.Compile.{
  GoLibrary, Bind, texts, Sql, equal_any, lower_column, negation, ilike_any, byte_length,
  long_value, validate_filter_values, cons_non_empty, trim_non_empty, push, any_like, empty_expr,
  enum_column, compile_enum, compile_text,
}
use nuclei_security_center.FindingQuery.Rows.{Finding, Collation, selects}
use nuclei_security_center.FindingQuery.Where.{
  where_clause, lower_values, compile_kind, compile_values, compile_checked, compile_spec,
  compile_condition, add_condition, build_group, add_group, build_groups, build_finding_where,
}
use nuclei_security_center.Login.Clients.{is_space, trim_left, trim_space}
use nuclei_security_center.FindingQuery.Meaning.{asks}
use nuclei_security_center.FindingQuery.Meaning.Refines.{build_finding_where-asks}
use nuclei_security_center.FindingQuery.Bounds.{
  build_finding_where-admissible, admissible, conditions_of,
}
use nuclei_security_center.FindingQuery.{max_conditions}

abbrev half_percent : Chars
half_percent = codes "5%"

tokens-escape_like_example :
    tokens false (escape_like half_percent ++ (37 ∷ []))
    ≡ map lit half_percent ++ tokens false (37 ∷ [])
tokens-escape_like_example = tokens-escape_like half_percent (37 ∷ [])

ilike-has_infix_example :
    ilike (λ c. c) (codes "a5%b") (wrap_one around half_percent)
    ≡ has_infix (λ c. c) (codes "a5%b") half_percent
ilike-has_infix_example = ilike-has_infix (λ c. c) half_percent (codes "a5%b")

-- Lower-casing of the one text that the query has in upper case.
abbrev to_lower : Chars → Chars
to_lower s = if chars_eq s (codes "HIGH") then codes "high" else s

abbrev go : GoLibrary
go = record {
  to_lower = to_lower;
  parse_instant = λ s. none;
  parse_date = λ s. some (length s);
  parse_int = λ s. some (pos (length s));
}

abbrev collation : Collation
collation = record { sql_lower = to_lower; fold = λ c. c }

abbrev finding : Finding
finding = record {
  text = λ e. some (codes "HIGH");
  elements = λ e. none;
  time = λ e. none;
  number = λ e. none;
  truth = λ e. none;
  targets = [];
}

abbrev query : FindingQuery
query = record {
  groups =
      record {
        conditions =
            record { field = "severity"; op = "any_of"; values = codes " HIGH " ∷ [] }
            ∷ record { field = "host"; op = "not_contains"; values = half_percent ∷ [] }
            ∷ [];
      }
      ∷ record { conditions = [] }
      ∷ [];
  sort = "";
  order = "";
}

abbrev binds : List Bind
binds = texts (codes "high" ∷ []) ∷ texts ((37 ∷ 53 ∷ 92 ∷ 37 ∷ 37 ∷ []) ∷ []) ∷ []

abbrev clauses : List (List Sql)
clauses = (equal_any (lower_column eff_sev_expr) 1 ∷ negation (ilike_any l_host 2) ∷ []) ∷ []

runs : build_finding_where go query [] ≡ where_clause binds clauses
unfolding is_space trim_left trim_space finding_field_table lookup_field finding_fields ops_for_kind
    byte_length long_value validate_filter_values cons_non_empty trim_non_empty replace_all
    escape_like wrap_one like_wrap push any_like empty_expr enum_column compile_enum compile_text
    lower_values compile_kind compile_values compile_checked compile_spec compile_condition
    add_condition build_group add_group build_groups build_finding_where
runs = refl

build_finding_where-asks_example :
    selects collation finding binds clauses ≡ asks go collation finding query
build_finding_where-asks_example =
    build_finding_where-asks go collation finding query [] binds clauses runs

build_finding_where-admissible_example :
    (length (conditions_of query.groups) ≤ max_conditions)
    × (all admissible (conditions_of query.groups) ≡ true)
build_finding_where-admissible_example =
    build_finding_where-admissible go query [] binds clauses runs
