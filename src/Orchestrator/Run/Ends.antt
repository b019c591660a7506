-- ===== src/Orchestrator/Run/Ends.antt =====
-- What is true of every run of a scan: its terminal writes and the reclaiming of the node.
use mathlib.Core.List.{append-nil, append_assoc}
use nuclei_security_center.Common.{
  ℕ, String, List, [], ◌∷◌, ◌++◌, ◌≡◌, ◌∙◌, refl, Option, some, none, Bool, true, false, arith,
  Bool-cases, inl, inr, concat,
}
use nuclei_security_center.Store.Rows.{NotifyKind, digest, failure}
use nuclei_security_center.Store.Statements.{fail, finish}
use nuclei_security_center.Orchestrator.Dispatch.{
  NodeState, running, complete, failed, cancelled, retry_write,
}
use nuclei_security_center.Orchestrator.Run.{
  Outcome, ok, err, Answers, ScanStatus, Act, write, notify, fail_scan, cleanup_node_scan,
  abort_node_scan, complete_scan, after_ingest, by_state, record_versions, after_poll, after_mark,
  after_start, after_bundle, after_client, run, terminal_write_attempts,
}

-- The scan's end as the acts write it: each terminal write and each notification, in order.
pub data End : Type 0 where
  marked : NotifyKind → End
  told : NotifyKind → End

abbrev pub end_of : Act → List End
end_of (write (fail id reason version commit now)) = marked failure ∷ []
end_of (write (finish id version commit now)) = marked digest ∷ []
end_of (notify kind) = told kind ∷ []
end_of _ = []

unfoldable pub ends : List Act → List End
ends [] = []
ends (a ∷ acts) = end_of a ++ ends acts

-- How a scan should end, from the answers alone: as failed at any error, as completed if the node
-- completed it and its results were ingested, and with nothing if the scan was cancelled on the way.
abbrev by_ingest : Outcome Unit → Option NotifyKind
by_ingest (ok u) = some digest
by_ingest (err e) = some failure

abbrev by_status : Outcome Unit → NodeState → Option NotifyKind
by_status i cancelled = none
by_status i failed = some failure
by_status i complete = by_ingest i
by_status i running = by_ingest i

abbrev by_poll : Answers → Outcome ScanStatus → Option NotifyKind
by_poll a (err e) = some failure
by_poll a (ok st) = by_status a.ingested st.state

abbrev by_mark : Answers → Outcome Bool → Option NotifyKind
by_mark a (err e) = some failure
by_mark a (ok false) = none
by_mark a (ok true) = by_poll a a.poll

abbrev by_start : Answers → Outcome String → Option NotifyKind
by_start a (err e) = some failure
by_start a (ok id) = by_mark a a.marked_running

abbrev by_bundle : Answers → Outcome Unit → Option NotifyKind
by_bundle a (err e) = some failure
by_bundle a (ok u) = by_start a a.start_scan

abbrev pub verdict : Answers → Outcome Unit → Option NotifyKind
verdict a (err e) = some failure
verdict a (ok u) = by_bundle a a.bundle

-- The end that a verdict comes to, given whether a try of the terminal write succeeds.
unfoldable pub expected : Bool → Option NotifyKind → List End
expected b none = []
expected false (some kind) = []
expected true (some kind) = marked kind ∷ told kind ∷ []

ends-append : (xs ys : List Act) → ends (xs ++ ys) ≡ ends xs ++ ends ys
unfolding ends
ends-append [] ys = refl
ends-append (x ∷ xs) ys = rw (ends-append xs ys, append_assoc (end_of x) (ends xs) (ends ys)) refl

-- Whether a try of the terminal write succeeds.
abbrev pub lands : Answers → Bool
lands a = (retry_write terminal_write_attempts a.writes).0

module _ (scan_id now : ℕ) (node_id commit : String) where
  ends-cleanup : (id : String) → ends (cleanup_node_scan scan_id now node_id commit id) ≡ []
  unfolding ends cleanup_node_scan
  ends-cleanup id = ground arith

  ends-abort : (id : String) → ends (abort_node_scan scan_id now node_id commit id) ≡ []
  unfolding ends cleanup_node_scan abort_node_scan
  ends-abort id = ground arith

  ends-fail :
      (a : Answers) (reason version templates : String)
      → ends (fail_scan scan_id now node_id commit a.writes reason version templates)
        ≡ expected (lands a) (some failure)
  unfolding fail_scan ends expected
  ends-fail a reason version templates = elim (Bool-cases (lands a)) [
    | inl wins ↦ rw wins refl
    | inr loses ↦ rw loses refl
  ]

  ends_complete :
      (a : Answers) (st : ScanStatus)
      → ends (complete_scan scan_id now node_id commit a.writes st)
        ≡ expected (lands a) (some digest)
  unfolding complete_scan ends expected
  ends_complete a st = elim (Bool-cases (lands a)) [
    | inl wins ↦ rw wins refl
    | inr loses ↦ rw loses refl
  ]

  -- The reclaiming behind an end adds none.
  ends-reclaimed :
      (acts : List Act) (id : String)
      → ends (acts ++ cleanup_node_scan scan_id now node_id commit id) ≡ ends acts
  ends-reclaimed acts id =
      rw (ends-append acts (cleanup_node_scan scan_id now node_id commit id), ends-cleanup id)
        (append-nil (ends acts))

  ends-after_ingest :
      (a : Answers) (id : String) (st : ScanStatus) (i : Outcome Unit)
      → ends (after_ingest scan_id now node_id commit a id st i) ≡ expected (lands a) (by_ingest i)
  unfolding after_ingest
  ends-after_ingest a id st (err e) =
      ends-reclaimed (fail_scan scan_id now node_id commit a.writes _ _ _) id ∙ ends-fail a _ _ _
  ends-after_ingest a id st (ok u) =
      ends-reclaimed (complete_scan scan_id now node_id commit a.writes st) id ∙ ends_complete a st

  ends-by_state :
      (a : Answers) (id : String) (st : ScanStatus) (s : NodeState)
      → ends (by_state scan_id now node_id commit a id st s)
        ≡ expected (lands a) (by_status a.ingested s)
  unfolding by_state ends expected
  ends-by_state a id st cancelled = ends-cleanup id
  ends-by_state a id st failed =
      ends-reclaimed (fail_scan scan_id now node_id commit a.writes _ _ _) id ∙ ends-fail a _ _ _
  ends-by_state a id st complete = ends-after_ingest a id st a.ingested
  ends-by_state a id st running = ends-after_ingest a id st a.ingested

  ends-versions : (st : ScanStatus) → ends (record_versions scan_id now node_id commit st) ≡ []
  unfolding record_versions ends
  ends-versions st = ground arith

  ends-after_poll :
      (a : Answers) (id : String) (o : Outcome ScanStatus)
      → ends (after_poll scan_id now node_id commit a id o) ≡ expected (lands a) (by_poll a o)
  unfolding after_poll ends
  ends-after_poll a id (err e) = ends-fail a e "" ""
  ends-after_poll a id (ok st) =
      rw
        (
          ends-append (record_versions scan_id now node_id commit st) _,
          ends-versions st,
          ends-by_state a id st st.state,
        )
        refl

  ends-after_mark :
      (a : Answers) (id : String) (o : Outcome Bool)
      → ends (after_mark scan_id now node_id commit a id o) ≡ expected (lands a) (by_mark a o)
  unfolding after_mark ends expected
  ends-after_mark a id (err e) =
      rw (ends-append (abort_node_scan scan_id now node_id commit id) _, ends-abort id)
        (ends-fail a (concat "mark running: " e) "" commit)
  ends-after_mark a id (ok false) = ends-abort id
  ends-after_mark a id (ok true) = ends-after_poll a id a.poll

  ends-after_start :
      (a : Answers) (o : Outcome String)
      → ends (after_start scan_id now node_id commit a o) ≡ expected (lands a) (by_start a o)
  unfolding after_start
  ends-after_start a (err e) = ends-fail a _ _ _
  ends-after_start a (ok id) = ends-after_mark a id a.marked_running

  ends-after_bundle :
      (a : Answers) (o : Outcome Unit)
      → ends (after_bundle scan_id now node_id commit a o) ≡ expected (lands a) (by_bundle a o)
  unfolding after_bundle
  ends-after_bundle a (err e) = ends-fail a _ _ _
  ends-after_bundle a (ok u) = ends-after_start a a.start_scan

  ends-after_client :
      (a : Answers) (o : Outcome Unit)
      → ends (after_client scan_id now node_id commit a o) ≡ expected (lands a) (verdict a o)
  unfolding after_client ends
  ends-after_client a (err e) = ends-fail a _ _ _
  ends-after_client a (ok u) = ends-after_bundle a a.bundle

  -- Whatever the node, the template distribution and the database answer, a run makes at most one
  -- terminal write and at most one notification, of the same kind and behind the write: `failure` at
  -- any error and if the node reports failure, `digest` if the node ends otherwise and its results are
  -- ingested, and none if the scan was cancelled on the way or if every try of the write fails.
  pub ends-run :
      (a : Answers)
      → ends (run scan_id now node_id commit a) ≡ expected (lands a) (verdict a a.client)
  unfolding run
  ends-run a = ends-after_client a a.client
