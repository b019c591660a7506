-- ===== src/FindingQuery/Meaning/Moments.antt =====
-- The comparisons with an instant and with a day.
use nuclei_security_center.Common.{
  ℕ, ◌/◌, ◌*◌, ◌+◌, ◌≡◌, refl, Bool, true, false, ◌&&◌, Option, none, some, List, [], ◌∷◌, ◌++◌,
  append_assoc, if◌then◌else◌, Chars, leb, ltb, length, arith, Option-cases, inl, inr,
}
use nuclei_security_center.FindingQuery.{Expr, QueryError}
use nuclei_security_center.FindingQuery.Compile.{
  GoLibrary, nanos_per_day, Bind, instant, Sql, Compiled, invalid, push, time_compare, gte,
}
use nuclei_security_center.FindingQuery.Typed.{parse_trimmed_time, then_push, upper}
use nuclei_security_center.FindingQuery.Rows.{
  Finding, Collation, bound, holds, evaluate, lift, and3,
}
use nuclei_security_center.FindingQuery.Meaning.Leaves.{Means, bound-push}
use nuclei_security_center.FindingQuery.Meaning.{
  holds_for, Moment, at_instant, on_day, not_before, not_after, moment_of,
}

from_midnight : (d t : ℕ) → leb (d * nanos_per_day) t ≡ leb d (t / nanos_per_day)
from_midnight d t = ground arith

to_midnight : (d t : ℕ) → ltb t (d * nanos_per_day + nanos_per_day) ≡ leb (t / nanos_per_day) d
to_midnight d t = ground arith

abbrev pub parsed_of : Option Moment → Option (ℕ × Bool)
parsed_of none = none
parsed_of (some (at_instant t)) = some (t, false)
parsed_of (some (on_day d)) = some (d * nanos_per_day, true)

pub parse_trimmed_time-moment_of :
    (go : GoLibrary) (s : Chars) → parse_trimmed_time go s ≡ parsed_of (moment_of go s)
unfolding parse_trimmed_time
parse_trimmed_time-moment_of go [] = refl
parse_trimmed_time-moment_of go (c ∷ s) = elim (Option-cases (go.parse_instant (c ∷ s))) [
  | inr (t, e) ↦ rw (parse_trimmed_time, moment_of, e) refl
  | inl e ↦ elim (Option-cases (go.parse_date (c ∷ s))) [
    | inr (d, k) ↦ rw (parse_trimmed_time, moment_of, e, k) refl
    | inl k ↦ rw (parse_trimmed_time, moment_of, e, k) refl
  ]
]

lift-pointwise :
    (o : Option ℕ) (p q : ℕ → Bool) → ((t : ℕ) → p t ≡ q t) → holds (lift o p) ≡ holds_for q o
lift-pointwise none p q h = refl
lift-pointwise (some t) p q h = h t

pub holds-and3 : (a b : Option Bool) → holds (and3 a b) ≡ holds a && holds b
holds-and3 none none = refl
holds-and3 none (some true) = refl
holds-and3 none (some false) = refl
holds-and3 (some true) b = refl
holds-and3 (some false) b = refl

pub holds_for_both :
    (o : Option ℕ) (p q : ℕ → Bool) → holds_for p o && holds_for q o ≡ holds_for (λ t. p t && q t) o
holds_for_both none p q = refl
holds_for_both (some t) p q = refl

abbrev pub cut : Moment → ℕ
cut (at_instant t) = t
cut (on_day d) = d * nanos_per_day + nanos_per_day

abbrev pub only_day : Moment → Bool
only_day (at_instant t) = false
only_day (on_day d) = true

abbrev pub start : Moment → ℕ
start (at_instant t) = t
start (on_day d) = d * nanos_per_day

pub from_moment : (m : Moment) (t : ℕ) → leb (start m) t ≡ not_before m t
from_moment (at_instant lo) t = refl
from_moment (on_day d) t = from_midnight d t

abbrev pub after_parsed : Option Moment → Option ℕ
after_parsed none = none
after_parsed (some m) = some (start m)

abbrev pub before_parsed : Option Moment → Option (ℕ × Bool)
before_parsed none = none
before_parsed (some m) = some (cut m, only_day m)

module _ (collation : Collation) (f : Finding) where
  pub two_push-Means :
      (args : List Bind) (v w : Bind) (p q : ℕ → Sql) (b : Bool)
      → ((binds : List Bind) (n m : ℕ)
          → bound binds n ≡ some v
          → bound binds m ≡ some w
          → holds (and3 (evaluate collation f binds (p n)) (evaluate collation f binds (q m))) ≡ b)
      → Means collation f args (then_push (push args v p) (λ pushed. push pushed w q)) b
  unfolding push then_push evaluate
  two_push-Means args v w p q b h = (
    v ∷ w ∷ [],
    append_assoc args (v ∷ []) (w ∷ []),
    λ rest.
        h (((args ++ (v ∷ [])) ++ (w ∷ [])) ++ rest) (length (args ++ (v ∷ [])))
          (length ((args ++ (v ∷ [])) ++ (w ∷ [])))
          (rw (append_assoc (args ++ (v ∷ [])) (w ∷ []) rest) (bound-push args v (w ∷ rest)))
          (bound-push (args ++ (v ∷ [])) w rest),
  )

  pub unless_invalid :
      (args : List Bind) (t : Bool) (x : Compiled) (e : QueryError) (b : Bool)
      → Means collation f args x b
      → Means collation f args (if t then invalid e else x) b
  unless_invalid args true x e b h = tt
  unless_invalid args false x e b h = h

  pub from_clause :
      (col : Expr) (m : Moment) (lo : ℕ) (binds : List Bind) (n : ℕ)
      → ((t : ℕ) → leb lo t ≡ not_before m t)
      → bound binds n ≡ some (instant lo)
      → holds (evaluate collation f binds (time_compare gte col n))
        ≡ holds_for (not_before m) (f.time col)
  unfolding evaluate
  from_clause col m lo binds n h e = rw e (lift-pointwise (f.time col) _ (not_before m) h)

  pub to_clause :
      (col : Expr) (m : Moment) (binds : List Bind) (n : ℕ)
      → bound binds n ≡ some (instant (cut m))
      → holds (evaluate collation f binds (time_compare (upper (only_day m)) col n))
        ≡ holds_for (not_after m) (f.time col)
  unfolding evaluate
  to_clause col (at_instant t) binds n e =
      rw e (lift-pointwise (f.time col) _ (not_after (at_instant t)) (λ u. refl))
  to_clause col (on_day d) binds n e =
      rw e (lift-pointwise (f.time col) _ (not_after (on_day d)) (to_midnight d))
