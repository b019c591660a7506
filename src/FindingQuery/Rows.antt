-- ===== src/FindingQuery/Rows.antt =====
-- What a clause of internal/store/findingquery.go selects, by SQL's three-valued logic, and what the
-- query asks of a finding. A finding is what the expressions of the allowlist read from its row.
use nuclei_security_center.Common.{
  ℕ, suc, zero, Bool, true, false, not, ◌&&◌, ◌||◌, Option, none, some, List, [], ◌∷◌, Chars,
  chars_eq, ltb, leb, ◌==◌, any, is_some,
}
use nuclei_security_center.Common.Int.{ℤ, int_eq, int_lt}
use nuclei_security_center.FindingQuery.{Expr}
use nuclei_security_center.FindingQuery.Compile.{
  Bind, texts, instant, integer, boolean, Column, column, lower_column, Comparison, eq, neq, gt,
  gte, lt, lte, Sql, equal_any, null_or_not_equal_any, ilike_any, overlaps, exists_ilike,
  ilike_any_two, exists_target, time_compare, number_compare, bool_compare, null_or_blank,
  not_null_and_not_blank, no_elements, some_elements, negation, conjunction,
}
use nuclei_security_center.FindingQuery.Like.{ilike}

-- NULL is `none`. The targets are those of the finding's occurrences, without NULL, as text.
pub record Finding : Type 0 where
  pub text : Expr → Option Chars
  pub elements : Expr → Option (List Chars)
  pub time : Expr → Option ℕ
  pub number : Expr → Option ℤ
  pub truth : Expr → Option Bool
  pub targets : List Chars

abbrev pub member : List Chars → Chars → Bool
member vs s = any (chars_eq s) vs

-- PostgreSQL's `lower` on a text and the case folding of ILIKE are parameters.
pub record Collation : Type 0 where
  pub sql_lower : Chars → Chars
  pub fold : ℕ → ℕ

abbrev pub nth : List Bind → ℕ → Option Bind
nth [] n = none
nth (b ∷ binds) zero = some b
nth (b ∷ binds) (suc n) = nth binds n

-- The value of `$n`, counted from 1.
abbrev pub bound : List Bind → ℕ → Option Bind
bound binds zero = none
bound binds (suc n) = nth binds n

abbrev pub with_texts : Option Bind → (List Chars → Option Bool) → Option Bool
with_texts (some (texts vs)) f = f vs
with_texts _ f = none

abbrev pub lift {ℓ} : {A : Type ℓ} → Option A → (A → Bool) → Option Bool
lift none f = none
lift (some a) f = some (f a)

abbrev pub not3 : Option Bool → Option Bool
not3 none = none
not3 (some b) = some (not b)

abbrev pub and3 : Option Bool → Option Bool → Option Bool
and3 (some false) b = some false
and3 (some true) b = b
and3 none (some false) = some false
and3 none (some true) = none
and3 none none = none

abbrev pub or3 : Option Bool → Option Bool → Option Bool
or3 (some true) b = some true
or3 (some false) b = b
or3 none (some true) = some true
or3 none (some false) = none
or3 none none = none

abbrev pub time_test : Comparison → ℕ → ℕ → Bool
time_test eq a b = a == b
time_test neq a b = not (a == b)
time_test gt a b = ltb b a
time_test gte a b = leb b a
time_test lt a b = ltb a b
time_test lte a b = leb a b

abbrev pub int_test : Comparison → ℤ → ℤ → Bool
int_test eq a b = int_eq a b
int_test neq a b = not (int_eq a b)
int_test gt a b = int_lt b a
int_test gte a b = not (int_lt a b)
int_test lt a b = int_lt a b
int_test lte a b = not (int_lt b a)

abbrev pub bool_eq : Bool → Bool → Bool
bool_eq true b = b
bool_eq false b = not b

abbrev pub time_with : Comparison → Option ℕ → Option Bind → Option Bool
time_with cmp a (some (instant b)) = lift a (λ t. time_test cmp t b)
time_with cmp a _ = none

-- IS DISTINCT FROM is never NULL.
abbrev pub distinct {ℓ} : {A : Type ℓ} → (A → Bool) → Option A → Bool
distinct same none = true
distinct same (some a) = not (same a)

abbrev pub number_with : Comparison → Option ℤ → Option Bind → Option Bool
number_with neq a (some (integer b)) = some (distinct (λ n. int_eq n b) a)
number_with cmp a (some (integer b)) = lift a (λ n. int_test cmp n b)
number_with cmp a _ = none

abbrev pub bool_with : Comparison → Option Bool → Option Bind → Option Bool
bool_with neq a (some (boolean b)) = some (distinct (bool_eq b) a)
bool_with cmp a (some (boolean b)) = lift a (bool_eq b)
bool_with cmp a _ = none

abbrev pub is_blank : Option Chars → Bool
is_blank none = true
is_blank (some s) = chars_eq s []

abbrev pub has_elements : Option (List Chars) → Bool
has_elements none = false
has_elements (some []) = false
has_elements (some (e ∷ es)) = true

-- A row is selected where the condition is true, neither false nor NULL.
abbrev pub holds : Option Bool → Bool
holds none = false
holds (some b) = b

module _ (collation : Collation) (f : Finding) where
  abbrev pub column_text : Column → Option Chars
  column_text (column e) = f.text e
  column_text (lower_column e) = elim (f.text e) [
    | none ↦ none
    | some s ↦ some (collation.sql_lower s)
  ]

  abbrev pub ilike_some : List Chars → Chars → Bool
  ilike_some patterns s = any (ilike collation.fold s) patterns

  -- The value of an expression of type boolean.
  unfoldable pub evaluate : List Bind → Sql → Option Bool
  evaluate binds (equal_any c n) =
      with_texts (bound binds n) (λ vs. lift (column_text c) (member vs))
  evaluate binds (null_or_not_equal_any c n) =
      with_texts (bound binds n)
        (λ vs. or3 (some (not (is_some (column_text c)))) (not3 (lift (column_text c) (member vs))))
  evaluate binds (ilike_any e n) =
      with_texts (bound binds n) (λ ps. lift (f.text e) (ilike_some ps))
  evaluate binds (overlaps e n) =
      with_texts (bound binds n) (λ vs. lift (f.elements e) (any (member vs)))
  evaluate binds (exists_ilike e n) =
      with_texts (bound binds n)
        (λ ps. some (elim (f.elements e) [ none ↦ false | some es ↦ any (ilike_some ps) es ]))
  evaluate binds (ilike_any_two a b n) =
      with_texts (bound binds n)
        (λ ps. or3 (lift (f.text a) (ilike_some ps)) (lift (f.text b) (ilike_some ps)))
  evaluate binds (exists_target n) =
      with_texts (bound binds n) (λ vs. some (any (member vs) f.targets))
  evaluate binds (time_compare cmp e n) = time_with cmp (f.time e) (bound binds n)
  evaluate binds (number_compare cmp e n) = number_with cmp (f.number e) (bound binds n)
  evaluate binds (bool_compare cmp e n) = bool_with cmp (f.truth e) (bound binds n)
  evaluate binds (null_or_blank e) = some (is_blank (f.text e))
  evaluate binds (not_null_and_not_blank e) = some (not (is_blank (f.text e)))
  evaluate binds (no_elements e) = some (not (has_elements (f.elements e)))
  evaluate binds (some_elements e) = some (has_elements (f.elements e))
  evaluate binds (negation q) = not3 (evaluate binds q)
  evaluate binds (conjunction q r) = and3 (evaluate binds q) (evaluate binds r)

  unfoldable pub all_hold : List Bind → List Sql → Bool
  unfolding evaluate
  all_hold binds [] = true
  all_hold binds (q ∷ qs) = holds (evaluate binds q) && all_hold binds qs

  unfoldable pub some_clause : List Bind → List (List Sql) → Bool
  unfolding all_hold
  some_clause binds [] = false
  some_clause binds (qs ∷ clauses) = all_hold binds qs || some_clause binds clauses

  -- Without a WHERE clause, every row.
  unfoldable pub selects : List Bind → List (List Sql) → Bool
  unfolding some_clause
  selects binds [] = true
  selects binds (qs ∷ clauses) = some_clause binds (qs ∷ clauses)
