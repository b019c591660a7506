-- ===== src/FindingQuery/Meaning/Times.antt =====
-- The clauses on times.
use nuclei_security_center.Common.{
  ℕ, ◌+◌, ◌-◌, ◌≡◌, refl, ◌∙◌, String, true, false, ◌&&◌, Option, none, some, List, str_eq,
  if◌then◌else◌, Chars, ltb,
}
use nuclei_security_center.Login.Clients.{trim_space}
use nuclei_security_center.FindingQuery.{Expr, FieldSpec, wrong_number_of_values, inverted_range}
use nuclei_security_center.FindingQuery.Compile.{
  GoLibrary, nanos_per_day, Bind, instant, invalid, push, time_compare, gte,
}
use nuclei_security_center.FindingQuery.Typed.{
  parse_filter_time, after_instant, before_cutoff, compile_after, compile_before, compile_between,
  compile_time_condition, then_push, only_value, two_values, upper,
}
use nuclei_security_center.FindingQuery.Rows.{Finding, Collation, bound, holds, evaluate}
use nuclei_security_center.FindingQuery.Meaning.Leaves.{Means, push-Means, if-Means, else_invalid}
use nuclei_security_center.FindingQuery.Meaning.{
  holds_for, Moment, at_instant, on_day, not_before, not_after, moment, in_range, asks_one_time,
  asks_two_times, asks_time,
}
use nuclei_security_center.FindingQuery.Meaning.Moments.{
  parsed_of, parse_trimmed_time-moment_of, two_push-Means, unless_invalid, from_clause, to_clause,
  from_moment, holds-and3, holds_for_both, start, cut, only_day, after_parsed, before_parsed,
}

module _ (collation : Collation) (f : Finding) where
  compile_after-Means :
      (col : Expr) (m : Option Moment) (args : List Bind)
      → Means collation f args
          (compile_after col (after_parsed m) args)
          (holds_for (λ t. holds_for (λ k. not_before k t) m) (f.time col))
  unfolding compile_after
  compile_after-Means col none args = tt
  compile_after-Means col (some m) args =
      push-Means collation f args (instant (start m)) (time_compare gte col) _
        (λ binds n e. from_clause collation f col m (start m) binds n (from_moment m) e)

  compile_before-Means :
      (col : Expr) (m : Option Moment) (args : List Bind)
      → Means collation f args
          (compile_before col (before_parsed m) args)
          (holds_for (λ t. holds_for (λ k. not_after k t) m) (f.time col))
  unfolding compile_before
  compile_before-Means col none args = tt
  compile_before-Means col (some m) args =
      push-Means collation f args (instant (cut m)) (time_compare (upper (only_day m)) col) _
        (λ binds n e. to_clause collation f col m binds n e)

  both :
      (col : Expr) (l h : Moment) (binds : List Bind) (n m : ℕ)
      → bound binds n ≡ some (instant (start l))
      → bound binds m ≡ some (instant (cut h))
      → holds (evaluate collation f binds (time_compare gte col n))
          && holds (evaluate collation f binds (time_compare (upper (only_day h)) col m))
        ≡ holds_for (in_range (some l) (some h)) (f.time col)
  both col l h binds n m e k =
      rw
        (
          from_clause collation f col l (start l) binds n (from_moment l) e,
          to_clause collation f col h binds m k,
        )
        (holds_for_both (f.time col) (not_before l) (not_after h))

  compile_between-Means :
      (col : Expr) (lo hi : Option Moment) (args : List Bind)
      → Means collation f args
          (compile_between col (after_parsed lo) (before_parsed hi) args)
          (holds_for (in_range lo hi) (f.time col))
  unfolding compile_between
  compile_between-Means col none hi args = tt
  compile_between-Means col (some l) none args = tt
  compile_between-Means col (some l) (some h) args =
      let b = holds_for (in_range (some l) (some h)) (f.time col) in
      unless_invalid collation f args (ltb (if only_day h then cut h - 1 else cut h) (start l))
        (then_push (push args (instant (start l)) (time_compare gte col))
          (λ pushed. push pushed (instant (cut h)) (time_compare (upper (only_day h)) col)))
        inverted_range b
        (two_push-Means collation f args (instant (start l)) (instant (cut h))
          (time_compare gte col) (time_compare (upper (only_day h)) col) b
          (λ binds n m e k.
            holds-and3 (evaluate collation f binds (time_compare gte col n))
              (evaluate collation f binds (time_compare (upper (only_day h)) col m))
            ∙ both col l h binds n m e k))

  after_instant-known :
      (go : GoLibrary) (v : Chars) → after_instant go v ≡ after_parsed (moment go v)
  unfolding after_instant parse_filter_time
  after_instant-known go v =
      rw (after_instant, parse_filter_time, parse_trimmed_time-moment_of go (trim_space v))
        (known (moment go v))
    where
      known :
          (m : Option Moment)
          → (elim (parsed_of m) [ some (t, date_only) ↦ some t | none ↦ none ]) ≡ after_parsed m
      known none = refl
      known (some (at_instant t)) = refl
      known (some (on_day d)) = refl

  before_cutoff-known :
      (go : GoLibrary) (v : Chars) → before_cutoff go v ≡ before_parsed (moment go v)
  unfolding before_cutoff parse_filter_time
  before_cutoff-known go v =
      rw (before_cutoff, parse_filter_time, parse_trimmed_time-moment_of go (trim_space v))
        (known (moment go v))
    where
      known :
          (m : Option Moment)
          → (elim (parsed_of m) [
            | some (t, true) ↦ some (t + nanos_per_day, true)
            | some (t, false) ↦ some (t, false)
            | none ↦ none
          ])
            ≡ before_parsed m
      known none = refl
      known (some (at_instant t)) = refl
      known (some (on_day d)) = refl

  one_time-Means :
      (go : GoLibrary) (spec : FieldSpec) (o : Option Chars) (args : List Bind)
      → Means collation f args
          (elim o [
            | none ↦ invalid wrong_number_of_values
            | some v ↦ compile_after spec.expr (after_instant go v) args
          ])
          (asks_one_time go collation f not_before spec o)
  one_time-Means go spec none args = tt
  one_time-Means go spec (some v) args =
      rw (after_instant-known go v) (compile_after-Means spec.expr (moment go v) args)

  one_cut-Means :
      (go : GoLibrary) (spec : FieldSpec) (o : Option Chars) (args : List Bind)
      → Means collation f args
          (elim o [
            | none ↦ invalid wrong_number_of_values
            | some v ↦ compile_before spec.expr (before_cutoff go v) args
          ])
          (asks_one_time go collation f not_after spec o)
  one_cut-Means go spec none args = tt
  one_cut-Means go spec (some v) args =
      rw (before_cutoff-known go v) (compile_before-Means spec.expr (moment go v) args)

  two_times-Means :
      (go : GoLibrary) (spec : FieldSpec) (o : Option (Chars × Chars)) (args : List Bind)
      → Means collation f args
          (elim o [
            | none ↦ invalid wrong_number_of_values
            | some (v, w) ↦ compile_between spec.expr (after_instant go v) (before_cutoff go w) args
          ])
          (asks_two_times go collation f spec o)
  two_times-Means go spec none args = tt
  two_times-Means go spec (some (v, w)) args =
      rw (after_instant-known go v, before_cutoff-known go w)
        (compile_between-Means spec.expr (moment go v) (moment go w) args)

  pub time-Means :
      (go : GoLibrary) (spec : FieldSpec) (op : String) (vals : List Chars) (args : List Bind)
      → Means collation f args
          (compile_time_condition go spec.expr op vals args)
          (asks_time go collation f spec op vals)
  unfolding compile_time_condition
  time-Means go spec op vals args =
      if-Means collation f args (str_eq op "after") _ _
        (asks_one_time go collation f not_before spec (only_value vals)) _
        (one_time-Means go spec (only_value vals) args)
        (if-Means collation f args (str_eq op "before") _ _
          (asks_one_time go collation f not_after spec (only_value vals))
          (asks_two_times go collation f spec (two_values vals))
          (one_cut-Means go spec (only_value vals) args)
          (else_invalid collation f args (str_eq op "between") _ _ _
            (two_times-Means go spec (two_values vals) args)))
