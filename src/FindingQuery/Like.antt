-- ===== src/FindingQuery/Like.antt =====
-- `escapeLike` and `likeWrap` of internal/store/findingquery.go, beside what PostgreSQL documents of
-- LIKE patterns. A text is its code points.
pub mod Literal
use nuclei_security_center.Common.{
  ℕ, List, [], ◌∷◌, ◌++◌, map, Bool, true, false, ◌||◌, ◌&&◌, if◌then◌else◌, ◌==◌, Chars,
}

-- `strings.ReplaceAll` of a text of one code point.
unfoldable pub replace_all : Chars → ℕ → Chars → Chars
replace_all [] c r = []
replace_all (d ∷ s) c r = if d == c then r ++ replace_all s c r else d ∷ replace_all s c r

abbrev pub backslash : ℕ
backslash = 92

abbrev pub percent : ℕ
percent = 37

abbrev pub underscore : ℕ
underscore = 95

unfoldable pub escape_like : Chars → Chars
unfolding replace_all
escape_like s =
    let s1 = replace_all s backslash (backslash ∷ backslash ∷ []) in
    let s2 = replace_all s1 percent (backslash ∷ percent ∷ []) in
    replace_all s2 underscore (backslash ∷ underscore ∷ [])

-- The two formats that `likeWrap` is called with: "%%%s%%" and "%s%%".
pub data Format : Type 0 where
  around after : Format

unfoldable pub wrap_one : Format → Chars → Chars
unfolding escape_like
wrap_one around v = percent ∷ (escape_like v ++ (percent ∷ []))
wrap_one after v = escape_like v ++ (percent ∷ [])

unfoldable pub like_wrap : List Chars → Format → List Chars
unfolding wrap_one
like_wrap vals format = map (wrap_one format) vals

-- A pattern as PostgreSQL reads it with its default escape character. It refuses a pattern that ends
-- in the escape character; here such a pattern matches nothing.
pub data Token : Type 0 where
  lit : ℕ → Token
  one many never : Token

-- Whether the last code point was an escape character that stands.
abbrev pub tokens : Bool → Chars → List Token
tokens true [] = never ∷ []
tokens false [] = []
tokens true (c ∷ s) = lit c ∷ tokens false s
tokens false (c ∷ s) =
    if c == backslash
    then tokens true s
    else if c == percent
    then many ∷ tokens false s
    else if c == underscore
    then one ∷ tokens false s
    else lit c ∷ tokens false s

abbrev pub some_suffix : (Chars → Bool) → Chars → Bool
some_suffix p [] = p []
some_suffix p (c ∷ s) = p (c ∷ s) || some_suffix p s

abbrev pub head_tail : (ℕ → Bool) → (Chars → Bool) → Chars → Bool
head_tail p q [] = false
head_tail p q (c ∷ s) = p c && q s

-- ILIKE: code points are compared after folding their case, by `fold`.
module _ (fold : ℕ → ℕ) where
  abbrev pub matches : List Token → Chars → Bool
  matches [] [] = true
  matches [] (c ∷ s) = false
  matches (lit d ∷ ts) s = head_tail (λ c. fold d == fold c) (matches ts) s
  matches (one ∷ ts) s = head_tail (λ c. true) (matches ts) s
  matches (many ∷ ts) s = some_suffix (matches ts) s
  matches (never ∷ ts) s = false

  abbrev pub ilike : Chars → Chars → Bool
  ilike s pattern = matches (tokens false pattern) s

  -- What is asked of a text, without patterns: that it starts with a value, or contains it.
  abbrev pub starts_with : Chars → Chars → Bool
  starts_with s [] = true
  starts_with [] (d ∷ v) = false
  starts_with (c ∷ s) (d ∷ v) = (fold d == fold c) && starts_with s v

  abbrev pub has_infix : Chars → Chars → Bool
  has_infix [] v = starts_with [] v
  has_infix (c ∷ s) v = starts_with (c ∷ s) v || has_infix s v
