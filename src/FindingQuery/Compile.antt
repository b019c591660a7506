-- ===== src/FindingQuery/Compile.antt =====
-- `buildFindingWhere` of internal/store/findingquery.go. The clause is a tree with one constructor per
-- format of the source; a placeholder `$n` is its number. The buffer of bound values, which the source
-- appends to through a pointer, is passed along. Instants are nanoseconds since a midnight in UTC that
-- is earlier than every time that the layouts can write.
use nuclei_security_center.Common.{
  ℕ, ◌+◌, String, Bool, Option, none, some, List, [], ◌∷◌, ◌++◌, str_eq, if◌then◌else◌, Chars,
  length, ltb,
}
use nuclei_security_center.Common.Int.{ℤ}
use nuclei_security_center.Login.Clients.{trim_space}
use nuclei_security_center.FindingQuery.{
  Expr, FieldSpec, is_text_two, is_text_array, QueryError, max_values_per_condition,
  max_filter_value_bytes, operator_not_valid, too_many_values, value_too_long,
}
use nuclei_security_center.FindingQuery.Like.{like_wrap, around, after}

pub data Bind : Type 0 where
  texts : List Chars → Bind
  instant : ℕ → Bind
  integer : ℤ → Bind
  boolean : Bool → Bind

-- A column's expression, or lower(expression).
pub data Column : Type 0 where
  column lower_column : Expr → Column

-- =, IS DISTINCT FROM, >, >=, <, <=
pub data Comparison : Type 0 where
  eq neq gt gte lt lte : Comparison

-- `equal_any c n` is c = ANY($n); `null_or_not_equal_any c n` is (c IS NULL OR NOT (c = ANY($n)));
-- `ilike_any e n` is e ILIKE ANY($n), `ilike_any_two` its disjunction over two columns; `overlaps e n`
-- is e && $n::text[]; `exists_ilike e n` asks the same of some element of the array e; `exists_target`
-- asks for an occurrence whose target is in the array; the next three are comparisons with $n.
pub data Sql : Type 0 where
  equal_any null_or_not_equal_any : Column → ℕ → Sql
  ilike_any overlaps exists_ilike : Expr → ℕ → Sql
  ilike_any_two : Expr → Expr → ℕ → Sql
  exists_target : ℕ → Sql
  time_compare number_compare bool_compare : Comparison → Expr → ℕ → Sql
  null_or_blank not_null_and_not_blank : Expr → Sql
  no_elements some_elements : Expr → Sql
  negation : Sql → Sql
  conjunction : Sql → Sql → Sql

-- The clause of a condition with the bound values so far, or the error.
pub data Compiled : Type 0 where
  compiled : List Bind → Sql → Compiled
  invalid : QueryError → Compiled

-- `push`, with the clause that uses the new placeholder.
unfoldable pub push : List Bind → Bind → (ℕ → Sql) → Compiled
push args v sql = let pushed = args ++ (v ∷ []) in compiled pushed (sql (length pushed))

-- What the source calls of Go's packages strings, strconv and time: `strings.ToLower`,
-- `time.Parse(time.RFC3339Nano, s)` in UTC, `time.Parse("2006-01-02", s)` as the number of the day, and
-- `strconv.ParseInt(s, 10, 64)`.
pub record GoLibrary : Type 0 where
  pub to_lower : Chars → Chars
  pub parse_instant : Chars → Option ℕ
  pub parse_date : Chars → Option ℕ
  pub parse_int : Chars → Option ℤ

abbrev pub nanos_per_day : ℕ
nanos_per_day = 86400000000000

-- The bytes of a text in UTF-8.
unfoldable pub byte_length : Chars → ℕ
byte_length [] = 0
byte_length (c ∷ s) =
    let rest = byte_length s in
    (if ltb c 128 then 1 else if ltb c 2048 then 2 else if ltb c 65536 then 3 else 4) + rest

unfoldable pub long_value : List Chars → Option QueryError
unfolding byte_length
long_value [] = none
long_value (v ∷ vs) =
    let rest = long_value vs in
    if ltb max_filter_value_bytes (byte_length v) then some value_too_long else rest

unfoldable pub validate_filter_values : List Chars → Option QueryError
unfolding long_value
validate_filter_values vs =
    if ltb max_values_per_condition (length vs) then some too_many_values else long_value vs

unfoldable pub cons_non_empty : Chars → List Chars → List Chars
cons_non_empty [] vs = vs
cons_non_empty (c ∷ s) vs = (c ∷ s) ∷ vs

unfoldable pub trim_non_empty : List Chars → List Chars
unfolding cons_non_empty trim_space
trim_non_empty [] = []
trim_non_empty (v ∷ vs) = cons_non_empty (trim_space v) (trim_non_empty vs)

unfoldable pub any_like : FieldSpec → List Chars → List Bind → (Sql → Sql) → Compiled
unfolding push
any_like spec patterns args f =
    if is_text_two spec.kind
    then push args (texts patterns) (λ n. f (ilike_any_two spec.expr spec.expr_b n))
    else push args (texts patterns) (λ n. f (ilike_any spec.expr n))

unfoldable pub empty_expr : FieldSpec → Bool → Sql
empty_expr spec empty =
    if is_text_array spec.kind
    then (if empty then no_elements spec.expr else some_elements spec.expr)
    else (if empty then null_or_blank spec.expr else not_null_and_not_blank spec.expr)

unfoldable pub enum_column : FieldSpec → Column
enum_column spec = if spec.lowered then lower_column spec.expr else column spec.expr

unfoldable pub compile_enum : FieldSpec → String → List Chars → List Bind → Compiled
unfolding enum_column push
compile_enum spec op vals args =
    if str_eq op "any_of"
    then push args (texts vals) (equal_any (enum_column spec))
    else if str_eq op "none_of"
    then push args (texts vals) (null_or_not_equal_any (enum_column spec))
    else invalid operator_not_valid

unfoldable pub compile_text : FieldSpec → String → List Chars → List Bind → Compiled
unfolding any_like like_wrap
compile_text spec op vals args =
    if str_eq op "contains"
    then any_like spec (like_wrap vals around) args (λ q. q)
    else if str_eq op "not_contains"
    then any_like spec (like_wrap vals around) args negation
    else if str_eq op "starts_with"
    then any_like spec (like_wrap vals after) args (λ q. q)
    else invalid operator_not_valid

unfoldable pub compile_text_array : FieldSpec → String → List Chars → List Bind → Compiled
unfolding push like_wrap
compile_text_array spec op vals args =
    if str_eq op "any_of"
    then push args (texts vals) (overlaps spec.expr)
    else if str_eq op "none_of"
    then push args (texts vals) (λ n. negation (overlaps spec.expr n))
    else if str_eq op "contains"
    then push args (texts (like_wrap vals around)) (exists_ilike spec.expr)
    else if str_eq op "not_contains"
    then push args (texts (like_wrap vals around)) (λ n. negation (exists_ilike spec.expr n))
    else invalid operator_not_valid

unfoldable pub compile_target : String → List Chars → List Bind → Compiled
unfolding push
compile_target op vals args =
    if str_eq op "none_of"
    then push args (texts vals) (λ n. negation (exists_target n))
    else push args (texts vals) exists_target
