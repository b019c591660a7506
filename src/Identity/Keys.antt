-- ===== src/Identity/Keys.antt =====
-- Two keys are equal only for equal components.
use nuclei_security_center.Common.{
  ◌≡◌, refl, ◌∙◌, sym, [], ◌∷◌, ◌++◌, false, Chars, arith, All, append_assoc, Bool-cases, inl, inr,
  ◌≢◌, ◌↔◌,
}
use nuclei_security_center.Identity.{dedup_sep, is_control, sanitize_key_component, dedup_key}

abbrev IsClean : Chars → Type 0
IsClean = All (λ r. is_control r ≡ false)

sanitize-IsClean : (s : Chars) → IsClean (sanitize_key_component s)
unfolding sanitize_key_component
sanitize-IsClean [] = tt
sanitize-IsClean (r ∷ s) = elim (Bool-cases (is_control r)) [
  | inl drop ↦ rw drop (sanitize-IsClean s)
  | inr keep ↦ rw keep (keep, sanitize-IsClean s)
]

-- Behind a clean component stands the first separator.
separated :
    (u v x y : Chars)
    → IsClean u
    → IsClean v
    → u ++ dedup_sep ∷ x ≡ v ++ dedup_sep ∷ y
    → (u ≡ v) × (x ≡ y)
separated [] [] x y hu hv e = (refl, cc e)
separated [] (c ∷ v) x y hu hv e = ground arith
separated (c ∷ u) [] x y hu hv e = ground arith
separated (c ∷ u) (d ∷ v) x y hu hv e = grind (arith, separated u v x y hu.1 hv.1)

-- A clean component holds no separator.
unseparated : (u x y : Chars) → IsClean u → u ≢ x ++ dedup_sep ∷ y
unseparated [] [] y h e = ground arith
unseparated [] (c ∷ x) y h e = ground arith
unseparated (c ∷ u) [] y h e = ground arith
unseparated (c ∷ u) (d ∷ x) y h e = grind (arith, unseparated u x y h.1)

abbrev clean : Chars → Chars
clean s = sanitize_key_component s

-- A key with a discriminator is no key without one.
longer :
    (t t' m m' d : Chars)
    → clean t ++ dedup_sep ∷ clean m ≢ (clean t' ++ dedup_sep ∷ clean m') ++ dedup_sep ∷ clean d
longer t t' m m' d e =
    let (a, rest) =
      separated (clean t) (clean t') _ _ (sanitize-IsClean t) (sanitize-IsClean t')
        (e ∙ append_assoc (clean t') (dedup_sep ∷ clean m') (dedup_sep ∷ clean d)) in
    unseparated (clean m) (clean m') (clean d) (sanitize-IsClean m) rest

-- If two keys are equal, their template ids, their matched-at values and their discriminators are
-- equal once control characters are dropped, and either both keys have a discriminator or neither.
pub dedup_key-injective :
    (t m d t' m' d' : Chars)
    → dedup_key t m d ≡ dedup_key t' m' d'
    → (sanitize_key_component t ≡ sanitize_key_component t')
      × (sanitize_key_component m ≡ sanitize_key_component m')
      × (sanitize_key_component d ≡ sanitize_key_component d')
      × ((d ≡ []) ↔ (d' ≡ []))
unfolding dedup_key
dedup_key-injective t m [] t' m' [] e =
    let (a, b) = separated (clean t) (clean t') _ _ (sanitize-IsClean t) (sanitize-IsClean t') e in
    (a, b, refl, ground arith)
dedup_key-injective t m [] t' m' (c' ∷ d') e = elim (longer t t' m m' (c' ∷ d') e) [ ]
dedup_key-injective t m (c ∷ d) t' m' [] e = elim (longer t' t m' m (c ∷ d) (sym e)) [ ]
dedup_key-injective t m (c ∷ d) t' m' (c' ∷ d') e =
    let (a, rest) = separated (clean t) (clean t') _ _ (sanitize-IsClean t) (sanitize-IsClean t') (
      sym (append_assoc (clean t) (dedup_sep ∷ clean m) (dedup_sep ∷ clean (c ∷ d)))
      ∙ e
      ∙ append_assoc (clean t') (dedup_sep ∷ clean m') (dedup_sep ∷ clean (c' ∷ d'))) in
    let (b, f) =
      separated (clean m) (clean m') _ _ (sanitize-IsClean m) (sanitize-IsClean m') rest in
    (a, b, f, ground arith)
