-- ===== src/FindingQuery/Typed.antt =====
-- The conditions on times, numbers and booleans of internal/store/findingquery.go.
use nuclei_security_center.Common.{
  ℕ, ◌*◌, ◌+◌, ◌-◌, String, Bool, true, false, Option, none, some, List, [], ◌∷◌, str_eq,
  if◌then◌else◌, Chars, chars_eq, codes, ltb,
}
use nuclei_security_center.Common.Int.{ℤ}
use nuclei_security_center.Login.Clients.{trim_space}
use nuclei_security_center.FindingQuery.{
  Expr, operator_not_valid, wrong_number_of_values, invalid_time, inverted_range, invalid_integer,
  invalid_boolean,
}
use nuclei_security_center.FindingQuery.Compile.{
  GoLibrary, Bind, instant, integer, boolean, time_compare, number_compare, bool_compare,
  conjunction, Comparison, eq, neq, gt, gte, lt, lte, Compiled, compiled, invalid, push,
  nanos_per_day,
}

unfoldable pub only_value : List Chars → Option Chars
only_value (v ∷ []) = some v
only_value [] = none
only_value (v ∷ w ∷ vs) = none

unfoldable pub two_values : List Chars → Option (Chars × Chars)
two_values (v ∷ w ∷ []) = some (v, w)
two_values [] = none
two_values (v ∷ []) = none
two_values (v ∷ w ∷ x ∷ vs) = none

abbrev pub upper : Bool → Comparison
upper exclusive = if exclusive then lt else lte

unfoldable pub compile_after : Expr → Option ℕ → List Bind → Compiled
unfolding push
compile_after col none args = invalid invalid_time
compile_after col (some lo) args = push args (instant lo) (time_compare gte col)

unfoldable pub compile_before : Expr → Option (ℕ × Bool) → List Bind → Compiled
unfolding push
compile_before col none args = invalid invalid_time
compile_before col (some (hi, exclusive)) args =
    push args (instant hi) (time_compare (upper exclusive) col)

unfoldable pub then_push : Compiled → (List Bind → Compiled) → Compiled
then_push (invalid e) f = invalid e
then_push (compiled args q) f = elim (f args) [
  | compiled more r ↦ compiled more (conjunction q r)
  | invalid e ↦ invalid e
]

unfoldable pub compile_between : Expr → Option ℕ → Option (ℕ × Bool) → List Bind → Compiled
unfolding push then_push
compile_between col none hi args = invalid invalid_time
compile_between col (some lo) none args = invalid invalid_time
compile_between col (some lo) (some (hi, exclusive)) args =
    let last = if exclusive then hi - 1 else hi in
    if ltb last lo
    then invalid inverted_range
    else then_push (push args (instant lo) (time_compare gte col))
        (λ pushed. push pushed (instant hi) (time_compare (upper exclusive) col))

-- The operators with their comparisons.
unfoldable pub numeric_comparison : String → Option Comparison
numeric_comparison op =
    if str_eq op "eq"
    then some eq
    else if str_eq op "neq"
    then some neq
    else if str_eq op "gt"
    then some gt
    else if str_eq op "gte"
    then some gte
    else if str_eq op "lt"
    then some lt
    else if str_eq op "lte"
    then some lte
    else none

unfoldable pub compile_integer : Expr → Option Comparison → Option ℤ → List Bind → Compiled
unfolding push
compile_integer col cmp none args = invalid invalid_integer
compile_integer col none (some n) args = invalid operator_not_valid
compile_integer col (some cmp) (some n) args = push args (integer n) (number_compare cmp col)

unfoldable pub bool_comparison : String → Option Comparison
bool_comparison op =
    if str_eq op "is" then some eq else if str_eq op "is_not" then some neq else none

unfoldable pub compile_boolean : Expr → Option Comparison → Option Bool → List Bind → Compiled
unfolding push
compile_boolean col cmp none args = invalid invalid_boolean
compile_boolean col none (some b) args = invalid operator_not_valid
compile_boolean col (some cmp) (some b) args = push args (boolean b) (bool_compare cmp col)

module _ (go : GoLibrary) where
  unfoldable pub parse_trimmed_time : Chars → Option (ℕ × Bool)
  parse_trimmed_time [] = none
  parse_trimmed_time (c ∷ s) = elim (go.parse_instant (c ∷ s)) [
    | some t ↦ some (t, false)
    | none ↦ elim (go.parse_date (c ∷ s)) [ some d ↦ some (d * nanos_per_day, true) | none ↦ none ]
  ]

  -- The instant, and whether the text is only a date.
  unfoldable pub parse_filter_time : Chars → Option (ℕ × Bool)
  unfolding trim_space parse_trimmed_time
  parse_filter_time s = parse_trimmed_time (trim_space s)

  unfoldable pub after_instant : Chars → Option ℕ
  unfolding parse_filter_time
  after_instant s = elim (parse_filter_time s) [ some (t, date_only) ↦ some t | none ↦ none ]

  -- The cut-off, and whether it is exclusive.
  unfoldable pub before_cutoff : Chars → Option (ℕ × Bool)
  unfolding parse_filter_time
  before_cutoff s = elim (parse_filter_time s) [
    | some (t, true) ↦ some (t + nanos_per_day, true)
    | some (t, false) ↦ some (t, false)
    | none ↦ none
  ]

  unfoldable pub compile_time_condition : Expr → String → List Chars → List Bind → Compiled
  unfolding only_value two_values compile_after compile_before compile_between after_instant
      before_cutoff
  compile_time_condition col op vals args =
      if str_eq op "after"
      then elim (only_value vals) [
        | none ↦ invalid wrong_number_of_values
        | some v ↦ compile_after col (after_instant v) args
      ]
      else if str_eq op "before"
      then elim (only_value vals) [
        | none ↦ invalid wrong_number_of_values
        | some v ↦ compile_before col (before_cutoff v) args
      ]
      else if str_eq op "between"
      then elim (two_values vals) [
        | none ↦ invalid wrong_number_of_values
        | some (v, w) ↦ compile_between col (after_instant v) (before_cutoff w) args
      ]
      else invalid operator_not_valid

  unfoldable pub parse_filter_int : Chars → Option ℤ
  unfolding trim_space
  parse_filter_int s = elim (trim_space s) [ [] ↦ none | c ∷ t ↦ go.parse_int (c ∷ t) ]

  unfoldable pub compile_numeric_condition : Expr → String → List Chars → List Bind → Compiled
  unfolding only_value numeric_comparison compile_integer parse_filter_int
  compile_numeric_condition col op vals args = elim (only_value vals) [
    | none ↦ invalid wrong_number_of_values
    | some v ↦ compile_integer col (numeric_comparison op) (parse_filter_int v) args
  ]

  unfoldable pub parse_filter_bool : Chars → Option Bool
  unfolding trim_space
  parse_filter_bool s =
      let t = go.to_lower (trim_space s) in
      if chars_eq t (codes "true")
      then some true
      else if chars_eq t (codes "false")
      then some false
      else none

  unfoldable pub compile_bool_condition : Expr → String → List Chars → List Bind → Compiled
  unfolding only_value bool_comparison compile_boolean parse_filter_bool
  compile_bool_condition col op vals args = elim (only_value vals) [
    | none ↦ invalid wrong_number_of_values
    | some v ↦ compile_boolean col (bool_comparison op) (parse_filter_bool v) args
  ]
