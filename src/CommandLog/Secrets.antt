-- ===== src/CommandLog/Secrets.antt =====
-- What the redaction of a command's arguments can tell of their secrets.
use nuclei_security_center.Common.{◌≡◌, refl, ap, List, [], ◌∷◌, ◌++◌, Chars}
use nuclei_security_center.CommandLog.Sensitive.{
  Sensitive, NoEquals, secret_of-inline, secret_of-behind, secret_of-plain, secret_of-plain_value,
}
use nuclei_security_center.CommandLog.{
  CommandTool, in_this, in_next, no_secret, secret_of, redact_command_args, redacted_command_value,
}

-- Two argument lists that are the same but for the values of sensitive flags, where the flag and the
-- value are one argument with an equals sign, or two.
pub data SameButSecrets (to_lower : Chars → Chars) (tool : CommandTool)
    : List Chars → List Chars → Type 0 where
  same_nil : SameButSecrets to_lower tool [] []
  same_plain :
      (a : Chars) (xs ys : List Chars)
      → NoEquals a
      → ¬ Sensitive to_lower tool a
      → SameButSecrets to_lower tool xs ys
      → SameButSecrets to_lower tool (a ∷ xs) (a ∷ ys)
  same_value :
      (flag v : Chars) (xs ys : List Chars)
      → NoEquals flag
      → ¬ Sensitive to_lower tool flag
      → SameButSecrets to_lower tool xs ys
      → SameButSecrets to_lower tool ((flag ++ (61 ∷ v)) ∷ xs) ((flag ++ (61 ∷ v)) ∷ ys)
  same_inline :
      (flag v w : Chars) (xs ys : List Chars)
      → NoEquals flag
      → Sensitive to_lower tool flag
      → SameButSecrets to_lower tool xs ys
      → SameButSecrets to_lower tool ((flag ++ (61 ∷ v)) ∷ xs) ((flag ++ (61 ∷ w)) ∷ ys)
  same_behind :
      (flag v w : Chars) (xs ys : List Chars)
      → NoEquals flag
      → Sensitive to_lower tool flag
      → SameButSecrets to_lower tool xs ys
      → SameButSecrets to_lower tool (flag ∷ v ∷ xs) (flag ∷ w ∷ ys)
  same_last : (a : Chars) → SameButSecrets to_lower tool (a ∷ []) (a ∷ [])

module _ (to_lower : Chars → Chars) (tool : CommandTool) where
  redact-plain :
      (a : Chars) (xs : List Chars)
      → secret_of to_lower tool a ≡ no_secret
      → redact_command_args to_lower (a ∷ xs) tool ≡ a ∷ redact_command_args to_lower xs tool
  unfolding redact_command_args
  redact-plain a [] h = rw (redact_command_args, h) refl
  redact-plain a (b ∷ xs) h = rw (redact_command_args, h) refl

  same_head :
      (a : Chars) (xs ys : List Chars)
      → secret_of to_lower tool a ≡ no_secret
      → redact_command_args to_lower xs tool ≡ redact_command_args to_lower ys tool
      → redact_command_args to_lower (a ∷ xs) tool ≡ redact_command_args to_lower (a ∷ ys) tool
  same_head a xs ys h e = rw (redact-plain a xs h, redact-plain a ys h) (ap (λ l. a ∷ l) e)

  redact-inline :
      (a flag : Chars) (xs : List Chars)
      → secret_of to_lower tool a ≡ in_this flag
      → redact_command_args to_lower (a ∷ xs) tool
        ≡ (flag ++ (61 ∷ redacted_command_value)) ∷ redact_command_args to_lower xs tool
  unfolding redact_command_args
  redact-inline a flag [] h = rw (redact_command_args, h) refl
  redact-inline a flag (b ∷ xs) h = rw (redact_command_args, h) refl

  redact-behind :
      (flag v : Chars) (xs : List Chars)
      → secret_of to_lower tool flag ≡ in_next
      → redact_command_args to_lower (flag ∷ v ∷ xs) tool
        ≡ flag ∷ redacted_command_value ∷ redact_command_args to_lower xs tool
  unfolding redact_command_args
  redact-behind flag v xs h = rw (redact_command_args, h) refl

  -- Argument lists that differ only in the values of sensitive flags are redacted to the same list.
  pub redact_command_args-SameButSecrets :
      (xs ys : List Chars)
      → SameButSecrets to_lower tool xs ys
      → redact_command_args to_lower xs tool ≡ redact_command_args to_lower ys tool
  redact_command_args-SameButSecrets [] [] same_nil = refl
  redact_command_args-SameButSecrets _ _ (same_plain a xs ys n p s) =
      same_head a xs ys (secret_of-plain to_lower tool a n p)
        (redact_command_args-SameButSecrets xs ys s)
  redact_command_args-SameButSecrets _ _ (same_value flag v xs ys n p s) =
      same_head (flag ++ (61 ∷ v)) xs ys (secret_of-plain_value to_lower tool flag v n p)
        (redact_command_args-SameButSecrets xs ys s)
  redact_command_args-SameButSecrets _ _ (same_inline flag v w xs ys n p s) =
      rw
        (
          redact-inline _ flag xs (secret_of-inline to_lower tool flag v n p),
          redact-inline _ flag ys (secret_of-inline to_lower tool flag w n p),
        )
        (ap (λ l. (flag ++ (61 ∷ redacted_command_value)) ∷ l)
          (redact_command_args-SameButSecrets xs ys s))
  redact_command_args-SameButSecrets _ _ (same_behind flag v w xs ys n p s) =
      let hidden = secret_of-behind to_lower tool flag n p in
      rw (redact-behind flag v xs hidden, redact-behind flag w ys hidden)
        (ap (λ l. flag ∷ redacted_command_value ∷ l) (redact_command_args-SameButSecrets xs ys s))
  redact_command_args-SameButSecrets _ _ (same_last a) = refl
