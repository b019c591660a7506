-- ===== src/Store/States/Moves.antt =====
-- What each statement does to the row of one scan, and where its state can go.
use nuclei_security_center.Common.{
  ℕ, String, ◌≡◌, refl, sym, true, ◌&&◌, some, List, [], ◌∷◌, ◌==◌, arith, Bool-cases, inl, inr,
  if◌then◌else◌, str_eq, is_some, ==_iff, ◌≢◌,
}
use nuclei_security_center.Common.Int.{is_neg, pos_part}
use nuclei_security_center.Store.Rows.{
  ScanState, queued, running, complete, failed, cancelled, CoverageOrigin, ScanRow, Db,
}
use nuclei_security_center.Store.Scans.{
  update_where, find_scan, create_scan, set_scan_node, mark_running, mark_failed, set_scan_versions,
  set_scan_skipped_finding_count, fail_orphaned_scans, set_scan_discovered, set_scan_coverage,
  set_scan_raw_object, set_scan_log_object, cancel_scan, is_queued, is_cancellable, completes,
  null_str, coalesce, run_row, fail_row, orphan_row, cancel_row, complete_row,
}
use nuclei_security_center.Store.Complete.{mark_complete, complete_with}
use nuclei_security_center.Store.Statements.{
  Statement, create, node, start, fail, versions, skipped, orphans, finish, discovered, coverage,
  raw_object, log_object, cancel, execute,
}
use nuclei_security_center.Store.States.Tables.{find-update_some, update-nothing}

on_scan : ℕ → (ScanRow → ScanRow) → ScanRow → ScanRow
on_scan id change r = if r.id == id then change r else r

discover : ℕ → List String → ScanRow → ScanRow
discover id [] r = r
discover id (t ∷ ts) r = on_scan id (λ r. record r { discovered_targets = some (t ∷ ts) }) r

-- The effect of a statement on one row, whatever else the tables hold.
unfoldable pub effect : Statement → ScanRow → ScanRow
unfolding on_scan discover run_row fail_row orphan_row cancel_row complete_row
effect (create id now target commit floor) r = r
effect (node id node_id) r =
    if str_eq node_id "" then r else on_scan id (λ r. record r { node_id = some node_id }) r
effect (start id node_scan now) r =
    if r.id == id && is_queued r.state then run_row node_scan now r else r
effect (fail id reason version commit now) r =
    if r.id == id && is_cancellable r.state then fail_row reason version commit now r else r
effect (versions id version commit) r =
    on_scan id
      (λ r. record r {
        nuclei_version = coalesce r.nuclei_version (null_str version);
        templates_commit = coalesce r.templates_commit (null_str commit);
      })
      r
effect (skipped id count) r =
    if is_neg count
    then r
    else on_scan id (λ r. record r { skipped_finding_count = pos_part count }) r
effect (orphans reason now) r = if is_cancellable r.state then orphan_row reason now r else r
effect (finish id version commit now) r =
    if completes id r then complete_row version commit now r else r
effect (discovered id targets) r = discover id targets r
effect (coverage id endpoints warning) r =
    on_scan id
      (λ r. record r {
        covered_endpoints = endpoints;
        coverage_warning = null_str warning;
        coverage_origin = CoverageOrigin.node;
      })
      r
effect (raw_object id key) r = on_scan id (λ r. record r { raw_object_key = some key }) r
effect (log_object id key) r = on_scan id (λ r. record r { log_object_key = some key }) r
effect (cancel id reason now) r =
    if r.id == id && is_cancellable r.state then cancel_row reason now r else r

found :
    (id j : ℕ) (rs : List ScanRow) {r : ScanRow}
    → id ≡ j
    → find_scan j rs ≡ some r
    → is_some (find_scan id rs) ≡ true
found id j rs e h = rw (e, h) refl

-- A new row has a key that no row had, so it hides none.
find-create :
    (id now : ℕ) (target commit floor : String) (db : Db) (j : ℕ) {r : ScanRow}
    → find_scan j db.scans ≡ some r
    → find_scan j (create_scan id now target commit floor db).scans ≡ some r
unfolding create_scan find_scan
find-create id now target commit floor db j h =
    elim (Bool-cases (is_some (find_scan id db.scans))) [
      | inl taken ↦ rw taken h
      | inr free ↦ rw free (elim (Bool-cases (id == j)) [
        | inl same ↦ cc (found id j db.scans ((==_iff id j).0 same) h)
        | inr other ↦ rw other h
      ])
    ]

module _ (lower : String → String) where
  scans-complete_with :
      (db : Db) (now : ℕ) (scans returned : List ScanRow)
      → (returned ≡ [] → scans ≡ db.scans)
      → (complete_with lower db now scans returned).scans ≡ scans
  unfolding complete_with
  scans-complete_with db now scans [] h = sym (h refl)
  scans-complete_with db now scans (cs ∷ rest) h = refl

  -- `MarkComplete` on the table `scans` alone: where no row is returned, no row is updated.
  pub scans-mark_complete :
      (id : ℕ) (version commit : String) (now : ℕ) (db : Db)
      → (mark_complete lower id version commit now db).scans
        ≡ update_where (completes id) (complete_row version commit now) db.scans
  unfolding mark_complete
  scans-mark_complete id version commit now db =
      scans-complete_with db now _ _
        (update-nothing (completes id) (complete_row version commit now) db.scans)

  -- A statement leaves every row of `scans` in place, changed by its effect alone.
  pub find-execute :
      (s : Statement) (db : Db) (j : ℕ) {r : ScanRow}
      → find_scan j db.scans ≡ some r
      → find_scan j (execute lower s db).scans ≡ some (effect s r)
  unfolding execute effect
  find-execute (create id now target commit floor) db j h =
      find-create id now target commit floor db j h
  find-execute (node id node_id) db j h = elim (Bool-cases (str_eq node_id "")) [
    | inl empty ↦ unfold set_scan_node in rw (empty) h
    | inr given ↦ unfold set_scan_node in rw given (find-update_some _ _ (λ r. refl) j db.scans h)
  ]
  find-execute (start id node_scan now) db j h =
      unfold mark_running in find-update_some _ _ (λ r. refl) j db.scans h
  find-execute (fail id reason version commit now) db j h =
      unfold mark_failed in find-update_some _ _ (λ r. refl) j db.scans h
  find-execute (versions id version commit) db j h =
      unfold set_scan_versions in find-update_some _ _ (λ r. refl) j db.scans h
  find-execute (skipped id count) db j h = elim (Bool-cases (is_neg count)) [
    | inl negative ↦ unfold set_scan_skipped_finding_count in rw negative h
    | inr valid ↦
        unfold set_scan_skipped_finding_count in
        rw valid (find-update_some _ _ (λ r. refl) j db.scans h)
  ]
  find-execute (orphans reason now) db j h =
      unfold fail_orphaned_scans in find-update_some _ _ (λ r. refl) j db.scans h
  find-execute (finish id version commit now) db j h =
      rw (scans-mark_complete id version commit now db)
        (find-update_some _ _ (λ r. refl) j db.scans h)
  find-execute (discovered id []) db j h = unfold set_scan_discovered in h
  find-execute (discovered id (t ∷ ts)) db j h =
      unfold set_scan_discovered in find-update_some _ _ (λ r. refl) j db.scans h
  find-execute (coverage id endpoints warning) db j h =
      unfold set_scan_coverage in find-update_some _ _ (λ r. refl) j db.scans h
  find-execute (raw_object id key) db j h =
      unfold set_scan_raw_object in find-update_some _ _ (λ r. refl) j db.scans h
  find-execute (log_object id key) db j h =
      unfold set_scan_log_object in find-update_some _ _ (λ r. refl) j db.scans h
  find-execute (cancel id reason now) db j h =
      unfold cancel_scan in find-update_some _ _ (λ r. refl) j db.scans h

-- The moves of a scan's state. `complete` can follow `failed`, and nothing follows `cancelled`.
infix 40 ◌⟶◌
pub data ◌⟶◌ : ScanState → ScanState → Type 0 where
  stay : {s : ScanState} → s ⟶ s
  begin : queued ⟶ running
  give_up : {s : ScanState} → is_cancellable s ≡ true → s ⟶ failed
  stop : {s : ScanState} → is_cancellable s ≡ true → s ⟶ cancelled
  end : {s : ScanState} → s ≢ cancelled → s ⟶ complete

pub effect_moves : (s : Statement) (r : ScanRow) → r.state ⟶ (effect s r).state
unfolding effect
effect_moves (create id now target commit floor) r = stay
effect_moves (discovered id []) r = stay
effect_moves _ r = grind (arith, stay, begin, give_up, stop, end)
