-- ===== src/CommandLog/Sensitive.antt =====
-- Which flags are sensitive, written out without the tests of internal/scanner/commandlog.go.
use mathlib.Core.List.{reverse-append, reverse-reverse}
use nuclei_security_center.Common.{
  ◌≡◌, ◌≢◌, ◌↔◌, ◌⊎◌, ◌∙◌, refl, sym, ap, Bool, true, false, none, some, List, [], ◌∷◌, ◌++◌, ◌||◌,
  ◌&&◌, Chars, codes, chars_eq, chars_eq→eq, chars_eq_refl, reverse, any, Any, any-Any, All, arith,
  if◌then◌else◌,
}
use nuclei_security_center.Login.Clients.{trim_space}
use nuclei_security_center.Auth.{has_prefix}
use nuclei_security_center.CommandLog.{
  CommandTool, unknown, nuclei, naabu, is_naabu, sensitive_command_flags,
  sensitive_command_flag_suffixes, has_suffix, is_flag, is_sensitive_command_flag, cut, secret_of,
  in_this, in_next, no_secret,
}

-- The names of the flags that take a secret, without their dashes.
abbrev pub secret_names : List Chars
secret_names =
    codes "api-key"
    ∷ codes "apikey"
    ∷ codes "client-key"
    ∷ codes "ck"
    ∷ codes "cookie"
    ∷ codes "dast-server-token"
    ∷ codes "dtst"
    ∷ codes "header"
    ∷ codes "headers"
    ∷ codes "interactsh-token"
    ∷ codes "itoken"
    ∷ codes "password"
    ∷ codes "p"
    ∷ codes "proxy"
    ∷ codes "proxy-auth"
    ∷ codes "secret"
    ∷ codes "secret-file"
    ∷ codes "sf"
    ∷ codes "token"
    ∷ codes "var"
    ∷ []

-- A flag that ends so takes a secret, whatever stands before.
abbrev pub secret_endings : List Chars
secret_endings =
    codes "-api-key"
    ∷ codes "-apikey"
    ∷ codes "-client-key"
    ∷ codes "-header"
    ∷ codes "-headers"
    ∷ codes "-password"
    ∷ codes "-proxy-auth"
    ∷ codes "-proxy"
    ∷ codes "-secret"
    ∷ codes "-token"
    ∷ codes "-var"
    ∷ []

-- The name with one dash or with two.
abbrev pub Dashed : Chars → Chars → Type 0
Dashed flag name = (flag ≡ codes "-" ++ name) ⊎ (flag ≡ codes "--" ++ name)

module _ (to_lower : Chars → Chars) (tool : CommandTool) where
  -- The trimmed flag is -H or -V, or in lower case it has a secret name or ending; but the -p of Naabu
  -- names ports.
  abbrev pub Sensitive : Chars → Type 0
  Sensitive flag =
      (trim_space flag ≡ codes "-H")
      ⊎ (trim_space flag ≡ codes "-V")
      ⊎ (((tool ≢ naabu) ⊎ ¬ Dashed (to_lower (trim_space flag)) (codes "p"))
          × (Any (Dashed (to_lower (trim_space flag))) secret_names
              ⊎ Any (λ e. (stem : Chars) × (to_lower (trim_space flag) ≡ stem ++ e))
                  secret_endings))

chars_iff : (s t : Chars) → (chars_eq s t ≡ true) ↔ (s ≡ t)
chars_iff s t = (chars_eq→eq s t, λ e. rw e (chars_eq_refl t))

has_prefix_iff : (s p : Chars) → (has_prefix s p ≡ true) ↔ ((t : Chars) × (s ≡ p ++ t))
unfolding has_prefix
has_prefix_iff s [] = (λ h. (s, refl), λ h. refl)
has_prefix_iff [] (d ∷ p) = (λ h. ground arith, λ h. ground arith)
has_prefix_iff (c ∷ s) (d ∷ p) = (
  λ h.
      let (t, e) = (has_prefix_iff s p).0 (ground arith) in
      let same : c ≡ d = ground arith in (t, rw (same, e) refl),
  λ (t, e). let rest = (has_prefix_iff s p).1 (t, ground (arith, e)) in ground (arith, e, rest),
)

has_suffix_iff : (s e : Chars) → (has_suffix s e ≡ true) ↔ ((stem : Chars) × (s ≡ stem ++ e))
unfolding has_suffix
has_suffix_iff s e = (
  λ h.
      let (t, k) = (has_prefix_iff (reverse s) (reverse e)).0 h in
      (
        reverse t,
        sym (reverse-reverse s)
            ∙ ap reverse k
            ∙ reverse-append (reverse e) t
            ∙ ap (λ l. reverse t ++ l) (reverse-reverse e),
      ),
  λ (stem, k).
      (has_prefix_iff (reverse s) (reverse e)).1
        (reverse stem, ap reverse k ∙ reverse-append stem e),
)

is_naabu_iff : (tool : CommandTool) → (is_naabu tool ≡ true) ↔ (tool ≡ naabu)
is_naabu_iff unknown = ground arith
is_naabu_iff nuclei = ground arith
is_naabu_iff naabu = ground arith

-- The shape of the code's test, whatever its six conditions are.
decides :
    {h v n p a b : Bool} {H V N P A B : Type 0}
    → (h ≡ true) ↔ H
    → (v ≡ true) ↔ V
    → (n ≡ true) ↔ N
    → (p ≡ true) ↔ P
    → (a ≡ true) ↔ A
    → (b ≡ true) ↔ B
    → ((if h || v then true else if n && p then false else a || b) ≡ true)
      ↔ (H ⊎ V ⊎ (((N → ⊥) ⊎ ¬ P) × (A ⊎ B)))
decides {h} {v} {n} {p} {a} {b} eh ev en ep ea eb = ground (arith, eh, ev, en, ep, ea, eb)

-- No equals sign.
abbrev pub NoEquals : Chars → Type 0
NoEquals = All (λ c. c ≢ 61)

cut_whole : (s : Chars) → NoEquals s → cut s ≡ (s, none)
unfolding cut
cut_whole [] h = refl
cut_whole (c ∷ s) (h, hs) = ground (arith, h, cut_whole s hs)

cut_at : (s v : Chars) → NoEquals s → cut (s ++ (61 ∷ v)) ≡ (s, some v)
unfolding cut
cut_at [] v h = refl
cut_at (c ∷ s) v (h, hs) = ground (arith, h, cut_at s v hs)

module _ (to_lower : Chars → Chars) (tool : CommandTool) where
  is_flag_iff : (flag name : Chars) → (is_flag to_lower flag name ≡ true) ↔ Dashed flag name
  is_flag_iff flag name =
      ground (arith, chars_iff flag (codes "-" ++ name), chars_iff flag (codes "--" ++ name))

  names_iff :
      (flag : Chars)
      → (any (is_flag to_lower flag) sensitive_command_flags ≡ true)
        ↔ Any (Dashed flag) secret_names
  unfolding sensitive_command_flags
  names_iff flag = any-Any (Dashed flag) (is_flag to_lower flag) (is_flag_iff flag) secret_names

  endings_iff :
      (flag : Chars)
      → (any (has_suffix flag) sensitive_command_flag_suffixes ≡ true)
        ↔ Any (λ e. (stem : Chars) × (flag ≡ stem ++ e)) secret_endings
  unfolding sensitive_command_flag_suffixes
  endings_iff flag =
      any-Any (λ e. (stem : Chars) × (flag ≡ stem ++ e)) (has_suffix flag) (has_suffix_iff flag)
        secret_endings

  -- The code's test is this notion of a sensitive flag.
  pub is_sensitive_iff :
      (flag : Chars)
      → (is_sensitive_command_flag to_lower flag tool ≡ true) ↔ Sensitive to_lower tool flag
  unfolding is_sensitive_command_flag
  is_sensitive_iff flag =
      decides (chars_iff (trim_space flag) (codes "-H")) (chars_iff (trim_space flag) (codes "-V"))
        (is_naabu_iff tool) (is_flag_iff (to_lower (trim_space flag)) (codes "p"))
        (names_iff (to_lower (trim_space flag))) (endings_iff (to_lower (trim_space flag)))

  pub secret_of-inline :
      (flag v : Chars)
      → NoEquals flag
      → Sensitive to_lower tool flag
      → secret_of to_lower tool (flag ++ (61 ∷ v)) ≡ in_this flag
  unfolding secret_of
  secret_of-inline flag v n s =
      rw (secret_of, cut_at flag v n, cut_at flag v n, (is_sensitive_iff flag).1 s) refl

  pub secret_of-behind :
      (flag : Chars)
      → NoEquals flag
      → Sensitive to_lower tool flag
      → secret_of to_lower tool flag ≡ in_next
  unfolding secret_of
  secret_of-behind flag n s = rw (secret_of, cut_whole flag n, (is_sensitive_iff flag).1 s) refl

  insensitive :
      (flag : Chars)
      → ¬ Sensitive to_lower tool flag
      → is_sensitive_command_flag to_lower flag tool ≡ false
  insensitive flag s = ground (arith, is_sensitive_iff flag, s)

  pub secret_of-plain :
      (flag : Chars)
      → NoEquals flag
      → ¬ Sensitive to_lower tool flag
      → secret_of to_lower tool flag ≡ no_secret
  unfolding secret_of
  secret_of-plain flag n s = rw (secret_of, cut_whole flag n, insensitive flag s) refl

  pub secret_of-plain_value :
      (flag v : Chars)
      → NoEquals flag
      → ¬ Sensitive to_lower tool flag
      → secret_of to_lower tool (flag ++ (61 ∷ v)) ≡ no_secret
  unfolding secret_of
  secret_of-plain_value flag v n s =
      rw (secret_of, cut_at flag v n, cut_at flag v n, insensitive flag s) refl
