-- ===== src/Store/States/Told.antt =====
-- The outbox under any statement of a scan's life: no key twice, and a notification for every failed or
-- complete scan whose id is not foreign.
use nuclei_security_center.Common.{
  ℕ, String, ◌≡◌, refl, Bool, true, List, [], ◌∷◌, arith, All, Bool-cases, inl, inr, str_eq,
  is_some,
}
use nuclei_security_center.Common.Int.{is_neg}
use nuclei_security_center.Store.Rows.{
  ScanState, queued, running, complete, failed, cancelled, ScanRow, NotifyKind, digest, failure,
  Notification, Db,
}
use nuclei_security_center.Store.Scans.{
  update_where, returning, queued_for, enqueue_failures, find_scan, create_scan, set_scan_node,
  mark_running, mark_failed, set_scan_versions, set_scan_skipped_finding_count, fail_orphaned_scans,
  set_scan_discovered, set_scan_coverage, set_scan_raw_object, set_scan_log_object, cancel_scan,
  completes, complete_row,
}
use nuclei_security_center.Store.Complete.{mark_complete, complete_with}
use nuclei_security_center.Store.Statements.{
  Statement, create, node, start, fail, versions, skipped, orphans, finish, discovered, coverage,
  raw_object, log_object, cancel, execute,
}
use nuclei_security_center.Store.States.Tables.{All-update, update-nothing}
use nuclei_security_center.Store.States.Outbox.{
  IsUnique, enqueue-IsUnique, failures-IsUnique, enqueue-keeps, enqueue-has, failures-keep,
  failures-have, Told, AllTold, IfLocal_map, IfLocal_intro,
}

-- A key that is queued stays queued.
abbrev Grows : List Notification → List Notification → Type 0
Grows ns ns' =
    (scan : ℕ) (kind : NotifyKind)
    → queued_for scan kind ns ≡ true
    → queued_for scan kind ns' ≡ true

Told-Grows :
    (foreign : ℕ → Bool) (s : ScanState) (id : ℕ) (ns ns' : List Notification)
    → Grows ns ns'
    → Told foreign s id ns
    → Told foreign s id ns'
Told-Grows foreign failed id ns ns' g h = IfLocal_map (foreign id) (g id failure) h
Told-Grows foreign complete id ns ns' g h = IfLocal_map (foreign id) (g id digest) h
Told-Grows foreign queued id ns ns' g h = tt
Told-Grows foreign running id ns ns' g h = tt
Told-Grows foreign cancelled id ns ns' g h = tt

module _ (foreign : ℕ → Bool) (test : ScanRow → Bool) (change : ScanRow → ScanRow)
    (ns ns' : List Notification) where
  -- The rows that were updated are told of in the new outbox, the others were in the old one.
  told_update :
      (rs : List ScanRow)
      → Grows ns ns'
      → AllTold foreign ns' (returning test change rs)
      → AllTold foreign ns rs
      → AllTold foreign ns' (update_where test change rs)
  unfolding update_where returning
  told_update [] g new old = tt
  told_update (r ∷ rs) g new (h, hs) = elim (Bool-cases (test r)) [
    | inl passes ↦
        let new' : AllTold foreign ns' (change r ∷ returning test change rs) = rw passes at new in
        rw passes (new'.0, told_update rs g new'.1 hs)
    | inr fails ↦
        let new' : AllTold foreign ns' (returning test change rs) = rw fails at new in
        rw fails (Told-Grows foreign r.state r.id ns ns' g h, told_update rs g new' hs)
  ]

module _ (foreign : ℕ → Bool) (test : ScanRow → Bool) (change : ScanRow → ScanRow) where
  -- Rows that an update leaves in `failed` are told of once each of them is queued.
  failed_returned :
      ((r : ScanRow) → (change r).state ≡ failed)
      → (ns' : List Notification) (rs : List ScanRow)
      → All (λ r. queued_for r.id failure ns' ≡ true) (returning test change rs)
      → AllTold foreign ns' (returning test change rs)
  unfolding returning
  failed_returned to_failed ns' [] h = tt
  failed_returned to_failed ns' (r ∷ rs) h = elim (Bool-cases (test r)) [
    | inl passes ↦
        let h' : All (λ r. queued_for r.id failure ns' ≡ true)
            (change r ∷ returning test change rs) =
          rw passes at h in
        rw (passes, to_failed r)
          (IfLocal_intro (foreign (change r).id) h'.0, failed_returned to_failed ns' rs h'.1)
    | inr fails ↦
        let h' : All (λ r. queued_for r.id failure ns' ≡ true) (returning test change rs) =
          rw fails at h in
        rw fails (failed_returned to_failed ns' rs h')
  ]

module _ (id : ℕ) (version commit : String) (now : ℕ) where
  abbrev completion : ScanRow → ScanRow
  completion = complete_row version commit now

  -- The rows that `MarkComplete` returns are all of the scan that it names.
  completed_ids :
      (rs : List ScanRow)
      → All (λ r. (r.id ≡ id) × (r.state ≡ complete)) (returning (completes id) completion rs)
  unfolding returning complete_row
  completed_ids [] = tt
  completed_ids (r ∷ rs) = elim (Bool-cases (completes id r)) [
    | inl passes ↦ rw passes ((ground arith, refl), completed_ids rs)
    | inr fails ↦ rw fails (completed_ids rs)
  ]

AllTold-digest :
    (foreign : ℕ → Bool) (id : ℕ) (ns' : List Notification) (rs : List ScanRow)
    → queued_for id digest ns' ≡ true
    → All (λ r. (r.id ≡ id) × (r.state ≡ complete)) rs
    → AllTold foreign ns' rs
AllTold-digest foreign id ns' [] h k = tt
AllTold-digest foreign id ns' (r ∷ rs) h ((e, c), k) =
    (rw (c, e) (IfLocal_intro (foreign id) h), AllTold-digest foreign id ns' rs h k)

pub record IsSound (foreign : ℕ → Bool) (db : Db) : Type 0 where
  pub unique : IsUnique db.outbox
  pub told : AllTold foreign db.outbox db.scans

module _ (foreign : ℕ → Bool) (lower : String → String) (db : Db) (h : IsSound foreign db) where
  complete_with-IsSound :
      (id now : ℕ) (scans returned : List ScanRow)
      → (returned ≡ [] → scans ≡ db.scans)
      → All (λ r. (r.id ≡ id) × (r.state ≡ complete)) returned
      → ((ns' : List Notification)
          → Grows db.outbox ns'
          → AllTold foreign ns' returned
          → AllTold foreign ns' scans)
      → IsSound foreign (complete_with lower db now scans returned)
  unfolding complete_with
  complete_with-IsSound id now scans [] none_ ids told = h
  complete_with-IsSound id now scans (cs ∷ rest) none_ ids told = record {
    unique = enqueue-IsUnique _ _ _ _ h.unique;
    told =
        told _ (λ scan kind q. enqueue-keeps scan kind _ _ _ _ q)
          (AllTold-digest foreign id _ (cs ∷ rest)
            (rw (← ids.0.0) (enqueue-has cs.id digest _ db.outbox)) ids);
  }

  finish-IsSound :
      (id : ℕ) (version commit : String) (now : ℕ)
      → IsSound foreign (mark_complete lower id version commit now db)
  unfolding mark_complete
  finish-IsSound id version commit now =
      complete_with-IsSound id now _ _ (update-nothing _ _ db.scans)
        (completed_ids id version commit now db.scans)
        (λ ns' g new. told_update foreign _ _ db.outbox ns' db.scans g new h.told)

  failing-IsSound :
      (test : ScanRow → Bool) (change : ScanRow → ScanRow)
      → ((r : ScanRow) → (change r).state ≡ failed)
      → IsSound foreign (record db {
        scans = update_where test change db.scans;
        outbox = enqueue_failures (returning test change db.scans) db.outbox;
      })
  failing-IsSound test change to_failed = record {
    unique = failures-IsUnique _ _ h.unique;
    told =
        told_update foreign test change db.outbox _ db.scans
          (λ scan kind q. failures-keep scan kind _ _ q)
          (failed_returned foreign test change to_failed _ db.scans (failures-have _ db.outbox))
          h.told;
  }

  -- An update that moves no row into `failed` or `complete`.
  quiet-IsSound :
      (test : ScanRow → Bool) (change : ScanRow → ScanRow)
      → ((r : ScanRow)
          → Told foreign r.state r.id db.outbox
          → Told foreign (change r).state (change r).id db.outbox)
      → IsSound foreign (record db { scans = update_where test change db.scans })
  quiet-IsSound test change keep = record {
    unique = h.unique;
    told = All-update test change _ (λ r _. keep r) db.scans h.told;
  }

  create-IsSound :
      (id now : ℕ) (target commit floor : String)
      → IsSound foreign (create_scan id now target commit floor db)
  unfolding create_scan
  create-IsSound id now target commit floor = elim (Bool-cases (is_some (find_scan id db.scans))) [
    | inl taken ↦ rw taken h
    | inr free ↦ rw free (record { unique = h.unique; told = (tt, h.told) })
  ]

  pub execute-IsSound : (s : Statement) → IsSound foreign (execute lower s db)
  unfolding execute
  execute-IsSound (create id now target commit floor) = create-IsSound id now target commit floor
  execute-IsSound (node id node_id) = elim (Bool-cases (str_eq node_id "")) [
    | inl empty ↦ unfold set_scan_node in rw empty h
    | inr given ↦ unfold set_scan_node in rw given (quiet-IsSound _ _ (λ r t. t))
  ]
  execute-IsSound (start id node_scan now) = unfold mark_running in quiet-IsSound _ _ (λ r t. tt)
  execute-IsSound (fail id reason version commit now) =
      unfold mark_failed in failing-IsSound _ _ (λ r. refl)
  execute-IsSound (versions id version commit) =
      unfold set_scan_versions in quiet-IsSound _ _ (λ r t. t)
  execute-IsSound (skipped id count) = elim (Bool-cases (is_neg count)) [
    | inl negative ↦ unfold set_scan_skipped_finding_count in rw negative h
    | inr valid ↦ unfold set_scan_skipped_finding_count in rw valid (quiet-IsSound _ _ (λ r t. t))
  ]
  execute-IsSound (orphans reason now) =
      unfold fail_orphaned_scans in failing-IsSound _ _ (λ r. refl)
  execute-IsSound (finish id version commit now) = finish-IsSound id version commit now
  execute-IsSound (discovered id []) = unfold set_scan_discovered in h
  execute-IsSound (discovered id (t ∷ ts)) =
      unfold set_scan_discovered in quiet-IsSound _ _ (λ r t. t)
  execute-IsSound (coverage id endpoints warning) =
      unfold set_scan_coverage in quiet-IsSound _ _ (λ r t. t)
  execute-IsSound (raw_object id key) = unfold set_scan_raw_object in quiet-IsSound _ _ (λ r t. t)
  execute-IsSound (log_object id key) = unfold set_scan_log_object in quiet-IsSound _ _ (λ r t. t)
  execute-IsSound (cancel id reason now) = unfold cancel_scan in quiet-IsSound _ _ (λ r t. tt)
