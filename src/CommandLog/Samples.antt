-- ===== src/CommandLog/Samples.antt =====
-- How much of a long list of template paths the record keeps.
use nuclei_security_center.Common.{
  ℕ, suc, zero, ◌+◌, ◌-◌, ◌*◌, ◌/◌, ◌≤◌, ◌≡◌, refl, Bool, true, false, none, some, List, [], ◌∷◌,
  ◌++◌, if◌then◌else◌, Chars, length, append-nil, append_assoc, sym, length-append, length-drop,
  take, drop, ltb, arith, Bool-cases, inl, inr,
}
use nuclei_security_center.CommandLog.{
  max_logged_template_paths, template_path_sample_each_side, flag_each, template_path_summary,
  logged_run, compact_from, compact_command_args, is_template_flag,
}

length-flag_each :
    (flag : Chars) (paths : List Chars) → length (flag_each flag paths) ≡ 2 * length paths
unfolding flag_each
length-flag_each flag [] = refl
length-flag_each flag (p ∷ paths) = omega (arith, length-flag_each flag paths)

length-take : (n : ℕ) (paths : List Chars) → n ≤ length paths → length (take n paths) ≡ n
length-take zero paths h = refl
length-take (suc n) [] h = omega (arith, h)
length-take (suc n) (p ∷ paths) h = omega (arith, length-take n paths (omega (arith, h)))

module _ (decimal : ℕ → Chars) (flag : Chars) where
  sampled :
      (n : ℕ) (x : Chars) (paths : List Chars)
      → n ≤ length paths
      → length (
          flag_each flag (take n paths)
          ++ (flag ∷ x ∷ flag_each flag (drop (length paths - n) paths)))
        ≡ 4 * n + 2
  sampled n x paths h = omega (
    arith,
    h,
    length-append (flag_each flag (take n paths))
        (flag ∷ x ∷ flag_each flag (drop (length paths - n) paths)),
    length-flag_each flag (take n paths),
    length-take n paths h,
    length-flag_each flag (drop (length paths - n) paths),
    length-drop (length paths - n) paths,
  )

  length-summary :
      (paths : List Chars)
      → 16 ≤ length paths
      → length (template_path_summary decimal flag paths) ≡ 18
  unfolding template_path_summary
  length-summary paths h =
      elim (Bool-cases (ltb (length paths / 2) template_path_sample_each_side)) [
        | inl p ↦ ground (arith, h, p)
        | inr p ↦ rw (template_path_summary, p) (sampled 4 _ paths (omega (arith, h)))
      ]

  length-logged_run :
      (paths : List Chars)
      → length (logged_run decimal flag paths)
        ≡ (if ltb max_logged_template_paths (length paths) then 18 else 2 * length paths)
  unfolding logged_run template_path_summary
  length-logged_run paths = elim (Bool-cases (ltb max_logged_template_paths (length paths))) [
    | inr p ↦ rw (logged_run, p) (length-flag_each flag paths)
    | inl p ↦ rw (logged_run, p) (length-summary paths (ground arith))
  ]

  -- A list of arguments that does not start with a template flag and a path.
  abbrev pub starts_otherwise : List Chars → Bool
  starts_otherwise [] = true
  starts_otherwise (a ∷ []) = true
  starts_otherwise (a ∷ b ∷ rest) = if is_template_flag a then false else true

  compact_from-other :
      (paths rest : List Chars)
      → starts_otherwise rest ≡ true
      → compact_from decimal (some (flag, paths)) rest
        ≡ logged_run decimal flag paths ++ compact_from decimal none rest
  unfolding compact_from
  compact_from-other paths [] h = sym (append-nil (logged_run decimal flag paths))
  compact_from-other paths (a ∷ []) h = refl
  compact_from-other paths (a ∷ b ∷ rest) h = elim (Bool-cases (is_template_flag a)) [
    | inl p ↦ ground (arith, h, p)
    | inr p ↦ rw (compact_from, p) refl
  ]

  compact_from-run :
      (before paths rest : List Chars)
      → is_template_flag flag ≡ true
      → starts_otherwise rest ≡ true
      → compact_from decimal (some (flag, before)) (flag_each flag paths ++ rest)
        ≡ logged_run decimal flag (before ++ paths) ++ compact_from decimal none rest
  unfolding compact_from flag_each
  compact_from-run before [] rest h k = rw (append-nil before) (compact_from-other before rest k)
  compact_from-run before (p ∷ paths) rest h k =
      rw (compact_from, h)
        (rw (sym (append_assoc before (p ∷ []) paths))
          (compact_from-run (before ++ (p ∷ [])) paths rest h k))

  -- A run of template flags before other arguments is logged as four paths, the summary and four paths
  -- if it has more than 16 paths, and else path by path; the other arguments follow as they are logged
  -- alone.
  pub length-compact_command_args :
      (p : Chars) (paths rest : List Chars)
      → is_template_flag flag ≡ true
      → starts_otherwise rest ≡ true
      → length (compact_command_args decimal (flag_each flag (p ∷ paths) ++ rest))
        ≡ (if ltb max_logged_template_paths (length (p ∷ paths))
            then 18
            else 2 * length (p ∷ paths))
          + length (compact_command_args decimal rest)
  unfolding compact_command_args compact_from flag_each
  length-compact_command_args p paths rest h k =
      rw
        (
          compact_from,
          h,
          compact_from-run (p ∷ []) paths rest h k,
          length-append (logged_run decimal flag (p ∷ paths)) (compact_from decimal none rest),
          length-logged_run (p ∷ paths),
        )
        refl
