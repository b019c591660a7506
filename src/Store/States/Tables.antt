-- ===== src/Store/States/Tables.antt =====
-- What an UPDATE does to the row that a reader finds, and to a property of all rows.
use mathlib.Core.Option
use nuclei_security_center.Common.{
  ℕ, ◌≡◌, refl, Bool, true, some, List, [], ◌∷◌, ◌==◌, arith, All, Bool-cases, inl, inr,
  if◌then◌else◌,
}
use nuclei_security_center.Store.Rows.{ScanRow}
use nuclei_security_center.Store.Scans.{update_where, returning, find_scan}

module _ (test : ScanRow → Bool) (change : ScanRow → ScanRow)
    (keeps_id : (r : ScanRow) → (change r).id ≡ r.id) where
  abbrev pub changed : ScanRow → ScanRow
  changed r = if test r then change r else r

  changed-id : (r : ScanRow) → (changed r).id ≡ r.id
  changed-id r = elim (Bool-cases (test r)) [
    | inl passes ↦ rw passes (keeps_id r)
    | inr fails ↦ rw fails refl
  ]

  pub find-update :
      (j : ℕ) (rs : List ScanRow)
      → find_scan j (update_where test change rs) ≡ Option.map changed (find_scan j rs)
  unfolding find_scan update_where
  find-update j [] = refl
  find-update j (r ∷ rs) = rw (changed-id r) (elim (Bool-cases (r.id == j)) [
    | inl here ↦ rw here refl
    | inr later ↦ rw later (find-update j rs)
  ])

  pub find-update_some :
      (j : ℕ) (rs : List ScanRow) {r : ScanRow}
      → find_scan j rs ≡ some r
      → find_scan j (update_where test change rs) ≡ some (changed r)
  find-update_some j rs h = rw (find-update j rs, h) refl

module _ (test : ScanRow → Bool) (change : ScanRow → ScanRow) where
  -- A statement that returns no row changed none.
  pub update-nothing :
      (rs : List ScanRow) → returning test change rs ≡ [] → update_where test change rs ≡ rs
  unfolding returning update_where
  update-nothing [] h = refl
  update-nothing (r ∷ rs) h = ground (arith, update-nothing rs)

  module _ {ℓ} (P : ScanRow → Type ℓ)
      (keep : (r : ScanRow) → test r ≡ true → P r → P (change r)) where
    kept : (r : ScanRow) → P r → P (if test r then change r else r)
    kept r h = elim (Bool-cases (test r)) [
      | inl passes ↦ rw passes (keep r passes h)
      | inr fails ↦ rw fails h
    ]

    pub All-update : (rs : List ScanRow) → All P rs → All P (update_where test change rs)
    unfolding update_where
    All-update [] h = tt
    All-update (r ∷ rs) (h, hs) = (kept r h, All-update rs hs)
