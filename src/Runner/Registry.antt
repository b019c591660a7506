-- ===== src/Runner/Registry.antt =====
-- The registry of jobs: what `DeleteScan` and `cleanupExpired` may take.
use nuclei_security_center.Common.{
  ℕ, String, ◌≡◌, refl, [], ◌∷◌, Option, none, some, false, arith, is_some, ◌&&◌, if◌then◌else◌,
  str_eq, Bool-cases, ◌++◌, inl, inr, not,
}
use nuclei_security_center.Common.Dict.{Dict, lookup, lookup-remove}
use nuclei_security_center.Runner.{
  Job, terminal_and_finished, delete_scan, delete_found, is_expired, cleanup_expired, DeleteError,
  scan_not_found, scan_not_terminal,
}

-- The error that a lookup's result comes to.
abbrev pub verdict : Option Job → Option DeleteError
verdict none = some scan_not_found
verdict (some j) = if terminal_and_finished j then none else some scan_not_terminal

module _ (id k : String) (scans : Dict Job) where
  delete_found_lem :
      (o : Option Job)
      → ((delete_found id scans o).1 ≡ verdict o)
        × (lookup k (delete_found id scans o).0 ≡ (
            if not (is_some (delete_found id scans o).1) && str_eq id k
            then none
            else lookup k scans))
  unfolding delete_found
  delete_found_lem none = ground arith
  delete_found_lem (some j) = ground (arith, lookup-remove id k scans)

  -- `DeleteScan` says that a scan is unknown, or that it is not terminal, or removes it, in that order
  -- of the tests; it removes no other scan, and none if it reports an error.
  pub delete_scan_exact :
      ((delete_scan id scans).1 ≡ verdict (lookup id scans))
      × (lookup k (delete_scan id scans).0 ≡ (
          if not (is_some (delete_scan id scans).1) && str_eq id k then none else lookup k scans))
  unfolding delete_scan
  delete_scan_exact = delete_found_lem (lookup id scans)

-- `cleanupExpired` keeps every scan whose job is still running, is cancelled but not closed, or ended
-- less than the retention time ago, and keeps the order of the others.
pub cleanup_expired-keeps :
    (now : ℕ) (before after : Dict Job) (id : String) (j : Job)
    → is_expired now j ≡ false
    → cleanup_expired now (before ++ (id, j) ∷ after)
      ≡ cleanup_expired now before ++ (id, j) ∷ cleanup_expired now after
unfolding cleanup_expired
cleanup_expired-keeps now [] after id j h = rw h refl
cleanup_expired-keeps now ((i, k) ∷ before) after id j h = elim (Bool-cases (is_expired now k)) [
  | inl gone ↦ rw (cleanup_expired, gone) (cleanup_expired-keeps now before after id j h)
  | inr kept ↦ rw (cleanup_expired, kept, cleanup_expired-keeps now before after id j h) refl
]
