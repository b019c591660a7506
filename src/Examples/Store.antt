-- ===== src/Examples/Store.antt =====
-- Runs of the statements on small databases.
use nuclei_security_center.Common.{◌≡◌, ◌↔◌, ◌⊎◌, inl, refl, none, some, true, List, [], ◌∷◌, arith}
use nuclei_security_center.Store.Rows.{
  running, complete, cancelled, ScanRow, created_of, row_before, DigestFinding, DigestStatus,
  Severity,
}
use nuclei_security_center.Store.Scans.{find_scan}
use nuclei_security_center.Store.Complete.{observed_by, cover_row, is_candidate, is_associated}
use nuclei_security_center.Store.Statements.{
  create, start, finish, fail, cancel, execute, execute_all, empty_db,
}
use nuclei_security_center.Store.States.Moves.{◌⟶◌}
use nuclei_security_center.Store.States.Finality.{Same, execute_moves, cancelled_is_final}
use nuclei_security_center.Store.Writes.{BundleScan, Write, statement, imported, deleted, write_all}
use nuclei_security_center.Store.States.Told.{IsSound}
use nuclei_security_center.Store.States.Written.{is_imported, write_all-IsSound}
use nuclei_security_center.Store.States.Evidence.{no_evidence_no_move}
use nuclei_security_center.Store.States.Pointer.{
  Observes, Exercises, SeenInTarget, PointsEarlier, cover_row_exact,
}
use nuclei_security_center.Lifecycle.Ingest.{pointer_earlier}
use nuclei_security_center.Examples.Data.{scan, finding, two_scans, with_state, same_text}

execute_moves_example :
    (r' : ScanRow) × (find_scan 2 (execute same_text (cancel 2 "stop" 9) two_scans).scans ≡ some r')
    × (running ⟶ r'.state)
unfolding find_scan
execute_moves_example =
    execute_moves same_text (cancel 2 "stop" 9) two_scans 2 (scan 2 running) refl

cancelled_is_final_example :
    (r' : ScanRow) × (find_scan 2
        (execute_all same_text
          (finish 2 "v" "c" 8 ∷ fail 2 "late" "" "" 9 ∷ [])
          (with_state cancelled)).scans
      ≡ some r')
    × Same (scan 2 cancelled) r'
unfolding find_scan
cancelled_is_final_example =
    cancelled_is_final same_text (finish 2 "v" "c" 8 ∷ fail 2 "late" "" "" 9 ∷ [])
      (with_state cancelled) 2 (scan 2 cancelled) refl refl

abbrev bundle : BundleScan
bundle = record {
  id = 2;
  state = running;
  error = "";
  created_at = 1;
  started_at = some 1;
  finished_at = none;
  target_id = "t";
  node_id = "";
  nuclei_version = "";
  templates_commit = "";
  skipped_finding_count = 0;
  discovered_targets = [];
  covered_endpoints = none;
  coverage_warning = "";
}

-- One scan fails here, another is imported while it was running, and a third is deleted.
abbrev some_writes : List Write
some_writes =
    statement (create 1 1 "t" "c" "high")
    ∷ statement (start 1 "n" 2)
    ∷ statement (fail 1 "lost" "" "" 3)
    ∷ imported true bundle
    ∷ statement (create 3 4 "t" "c" "")
    ∷ statement (fail 3 "lost" "" "" 5)
    ∷ deleted 3
    ∷ []

write_all-IsSound_example :
    IsSound (is_imported some_writes) (write_all same_text some_writes empty_db)
write_all-IsSound_example = write_all-IsSound same_text some_writes

-- The second scan, had it skipped a record.
abbrev skipping : ScanRow
skipping = record (scan 2 complete) { skipped_finding_count = 1 }

no_evidence_no_move_example : cover_row two_scans skipping finding ≡ finding
unfolding observed_by
no_evidence_no_move_example =
    no_evidence_no_move two_scans skipping finding refl (inl (omega arith))

cover_row_exact_example :
    ((cover_row two_scans (scan 2 complete) finding).last_covering_scan ≡ some 2) ↔ (
      (finding.last_covering_scan ≡ some 2)
      ⊎ ((Observes two_scans (scan 2 complete) finding
            ⊎ Exercises two_scans (scan 2 complete) finding)
          × SeenInTarget two_scans (scan 2 complete) finding
          × PointsEarlier two_scans (scan 2 complete) finding))
cover_row_exact_example = cover_row_exact two_scans (scan 2 complete) finding

-- Two findings, the less severe one first.
abbrev two_findings : List DigestFinding
two_findings =
    record {
      id = 1;
      status = DigestStatus.new;
      severity = Severity.low;
      template_id = "a";
      name = "a";
      host = "h";
      matched_at = "h";
    }
    ∷ record {
      id = 2;
      status = DigestStatus.new;
      severity = Severity.critical;
      template_id = "b";
      name = "b";
      host = "h";
      matched_at = "h";
    }
    ∷ []

-- A scan that completes moves the pointer of the finding that its trace covers.
covered_test : (cover_row two_scans (scan 2 complete) finding).last_covering_scan ≡ some 2
unfolding cover_row is_candidate is_associated pointer_earlier find_scan created_of row_before
covered_test = refl
