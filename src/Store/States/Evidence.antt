-- ===== src/Store/States/Evidence.antt =====
-- What `MarkComplete` does to the lifecycle rows, and what it leaves alone.
use nuclei_security_center.Common.{ℕ, String, ◌≡◌, ◌≢◌, ◌⊎◌, refl, false, List, [], ◌∷◌, arith, All}
use nuclei_security_center.Store.Rows.{cancelled, ScanRow, LifecycleRow, CoverageOrigin, Db}
use nuclei_security_center.Store.Scans.{returning, completes, complete_row}
use nuclei_security_center.Store.Complete.{
  coverage_pairs, pair_covers, observed_by, is_candidate, cover_row, complete_with, mark_complete,
}

no_pairs :
    (cs : ScanRow) (l : LifecycleRow)
    → (cs.skipped_finding_count ≢ 0)
      ⊎ (cs.coverage_origin ≡ CoverageOrigin.import_untrusted)
      ⊎ (pair_covers (coverage_pairs cs) l ≡ false)
    → pair_covers (coverage_pairs cs) l ≡ false
unfolding coverage_pairs pair_covers
no_pairs cs l why = ground arith

module _ (db : Db) (cs : ScanRow) (l : LifecycleRow) where
  -- A row that the completed scan did not observe stays as it was, to the last column, if the scan
  -- skipped a finding record, or its coverage is an import that is not trusted, or its trace has
  -- not the row's exact template and endpoint (a row with no endpoint has none).
  pub no_evidence_no_move :
      observed_by db.findings cs.id l.id ≡ false
      → (cs.skipped_finding_count ≢ 0)
        ⊎ (cs.coverage_origin ≡ CoverageOrigin.import_untrusted)
        ⊎ (pair_covers (coverage_pairs cs) l ≡ false)
      → cover_row db cs l ≡ l
  unfolding cover_row is_candidate
  no_evidence_no_move unseen why = ground (arith, no_pairs cs l why)

returning-nothing :
    (id : ℕ) (change : ScanRow → ScanRow) (rs : List ScanRow)
    → All (λ r. (r.id ≢ id) ⊎ (r.state ≡ cancelled)) rs
    → returning (completes id) change rs ≡ []
unfolding returning
returning-nothing id change [] h = refl
returning-nothing id change (r ∷ rs) (h, hs) = ground (arith, returning-nothing id change rs hs)

-- Where every row with the id is cancelled, or there is none, `MarkComplete` changes nothing in any
-- table: neither the scan, nor a lifecycle pointer, nor the outbox.
pub mark_complete-cancelled :
    (lower : String → String) (db : Db) (id : ℕ) (version commit : String) (now : ℕ)
    → All (λ r. (r.id ≢ id) ⊎ (r.state ≡ cancelled)) db.scans
    → mark_complete lower id version commit now db ≡ db
unfolding mark_complete
mark_complete-cancelled lower db id version commit now h =
    rw (returning-nothing id (complete_row version commit now) db.scans h)
      (unfold complete_with in refl)
