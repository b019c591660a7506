-- ===== src/FindingQuery/Like/Literal.antt =====
-- A value that is escaped is matched literally.
use nuclei_security_center.Common.{
  ℕ, ◌≡◌, refl, [], ◌∷◌, ◌++◌, map, append_assoc, true, false, if◌then◌else◌, ◌==◌, Chars, arith,
  Bool-cases, inl, inr,
}
use nuclei_security_center.FindingQuery.Like.{
  replace_all, backslash, percent, underscore, escape_like, wrap_one, around, after, lit, many,
  tokens, some_suffix, matches, ilike, starts_with, has_infix,
}

-- What one code point becomes.
abbrev escaped : ℕ → Chars
escaped c =
    if c == backslash
    then backslash ∷ backslash ∷ []
    else if c == percent
    then backslash ∷ percent ∷ []
    else if c == underscore
    then backslash ∷ underscore ∷ []
    else c ∷ []

-- The first code point of an escaped text stands for itself.
escape_like-cons : (c : ℕ) (s : Chars) → escape_like (c ∷ s) ≡ escaped c ++ escape_like s
unfolding escape_like replace_all
escape_like-cons c s = elim (Bool-cases (c == backslash)) [
  | inl p ↦ rw (replace_all, p) refl
  | inr n ↦ elim (Bool-cases (c == percent)) [
    | inl p ↦ rw (replace_all, n, p) refl
    | inr m ↦ elim (Bool-cases (c == underscore)) [
      | inl p ↦ rw (replace_all, n, replace_all, m, p) refl
      | inr k ↦ rw (replace_all, n, replace_all, m, replace_all, k) refl
    ]
  ]
]

tokens-escaped : (c : ℕ) (s : Chars) → tokens false (escaped c ++ s) ≡ lit c ∷ tokens false s
tokens-escaped c s = ground arith

-- PostgreSQL reads an escaped value, whatever follows it, as the value's code points, each standing
-- for itself.
pub tokens-escape_like :
    (v rest : Chars) → tokens false (escape_like v ++ rest) ≡ map lit v ++ tokens false rest
unfolding escape_like replace_all
tokens-escape_like [] rest = refl
tokens-escape_like (c ∷ v) rest =
    rw
      (
        escape_like-cons c v,
        append_assoc (escaped c) (escape_like v) rest,
        tokens-escaped c (escape_like v ++ rest),
        tokens-escape_like v rest,
      )
      refl

module _ (fold : ℕ → ℕ) where
  any_suffix : (s : Chars) → some_suffix (matches fold (many ∷ [])) s ≡ true
  any_suffix [] = refl
  any_suffix (c ∷ s) = ground (arith, any_suffix s)

  matches-many : (s : Chars) → matches fold (many ∷ []) s ≡ true
  matches-many [] = refl
  matches-many (c ∷ s) = ground (arith, matches-many s)

  matches-starts_with :
      (v s : Chars) → matches fold (map lit v ++ (many ∷ [])) s ≡ starts_with fold s v
  matches-starts_with [] [] = refl
  matches-starts_with [] (c ∷ s) = matches-many (c ∷ s)
  matches-starts_with (d ∷ v) [] = refl
  matches-starts_with (d ∷ v) (c ∷ s) = rw (matches-starts_with v s) refl

  some_suffix-has_infix :
      (v s : Chars) → some_suffix (matches fold (map lit v ++ (many ∷ []))) s ≡ has_infix fold s v
  some_suffix-has_infix v [] = matches-starts_with v []
  some_suffix-has_infix v (c ∷ s) =
      rw (matches-starts_with v (c ∷ s), some_suffix-has_infix v s) refl

  -- A text matches the pattern made from a value exactly if it starts with the value, or contains
  -- it, up to case.
  pub ilike-starts_with : (v s : Chars) → ilike fold s (wrap_one after v) ≡ starts_with fold s v
  unfolding wrap_one
  ilike-starts_with v s = rw (tokens-escape_like v (percent ∷ [])) (matches-starts_with v s)

  pub ilike-has_infix : (v s : Chars) → ilike fold s (wrap_one around v) ≡ has_infix fold s v
  unfolding wrap_one
  ilike-has_infix v s = rw (tokens-escape_like v (percent ∷ [])) (some_suffix-has_infix v s)
