-- ===== src/Identity.antt =====
-- The identity of a lifecycle finding: `DedupKey` and `sanitizeKeyComponent` of
-- internal/store/lifecycle.go. A discriminator is a text that is given; text is a list of code points.
pub mod Keys
use nuclei_security_center.Common.{
  ℕ, List, [], ◌∷◌, ◌++◌, Bool, true, false, ltb, ◌==◌, ◌||◌, if◌then◌else◌, Chars,
}

abbrev pub dedup_sep : ℕ
dedup_sep = 31

-- `r < 0x20 || r == 0x7f`
abbrev pub is_control : ℕ → Bool
is_control r = ltb r 32 || (r == 127)

unfoldable pub sanitize_key_component : Chars → Chars
sanitize_key_component [] = []
sanitize_key_component (r ∷ s) =
    let rest = sanitize_key_component s in if is_control r then rest else r ∷ rest

unfoldable pub dedup_key : Chars → Chars → Chars → Chars
unfolding sanitize_key_component
dedup_key template_id matched_at [] =
    sanitize_key_component template_id ++ dedup_sep ∷ sanitize_key_component matched_at
dedup_key template_id matched_at (c ∷ discriminator) =
    (sanitize_key_component template_id ++ dedup_sep ∷ sanitize_key_component matched_at)
    ++ dedup_sep ∷ sanitize_key_component (c ∷ discriminator)
