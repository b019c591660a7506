-- ===== src/Orchestrator/Run.antt =====
-- `run` of internal/backend/orchestrator.go: what a scan's goroutine does, call by call, as a
-- function of what the node, the template distribution and the database answer it. An error is its
-- message. The calls that only log their error have no answer.
pub mod Ends
use nuclei_security_center.Common.{
  ℕ, String, List, [], ◌∷◌, ◌++◌, Option, none, some, Bool, true, false, if◌then◌else◌, str_eq,
  concat,
}
use nuclei_security_center.Store.Rows.{EndpointCoverage, NotifyKind, digest, failure}
use nuclei_security_center.Store.Statements.{
  Statement, node, start, fail, versions, finish, discovered, coverage,
}
use nuclei_security_center.Orchestrator.Dispatch.{
  NodeState, running, complete, failed, cancelled, retry_write,
}

-- The fields of `types.ScanStatus` that `run` reads.
pub record ScanStatus : Type 0 where
  pub state : NodeState
  pub nuclei_version : String
  pub templates_commit : String
  pub discovered_targets : List String
  pub covered_endpoints : Option (List EndpointCoverage)
  pub coverage_warning : String
  pub error : String

-- A Go result `(T, error)`.
pub data Outcome (T : Type 0) : Type 0 where
  ok : T → Outcome T
  err : String → Outcome T

pub record Answers : Type 0 where
  pub client : Outcome Unit
  pub bundle : Outcome Unit
  pub start_scan : Outcome String
  pub marked_running : Outcome Bool
  pub poll : Outcome ScanStatus
  pub ingested : Outcome Unit
  -- The tries of the terminal write, as `retry_write` takes them.
  pub writes : List (Bool × Bool)

-- The calls with an effect. A `write` is a statement on the database.
pub data Act : Type 0 where
  write : Statement → Act
  archive_log : String → Act
  ingest : String → Act
  notify : NotifyKind → Act
  cancel_node : String → Act
  delete_node : String → Act

abbrev pub terminal_write_attempts : ℕ
terminal_write_attempts = 5

module _ (scan_id now : ℕ) (node_id commit : String) where
  -- `failScan`: the write that succeeds in one of its tries, and then the notification.
  unfoldable pub fail_scan : List (Bool × Bool) → String → String → String → List Act
  unfolding retry_write
  fail_scan writes reason version templates =
      if (retry_write terminal_write_attempts writes).0
      then write (fail scan_id reason version templates now) ∷ notify failure ∷ []
      else []

  -- `cleanupNodeScan`
  unfoldable pub cleanup_node_scan : String → List Act
  cleanup_node_scan id = if str_eq id "" then [] else delete_node id ∷ []

  -- `abortNodeScan`
  unfoldable pub abort_node_scan : String → List Act
  unfolding cleanup_node_scan
  abort_node_scan id = if str_eq id "" then [] else cancel_node id ∷ cleanup_node_scan id

  -- The terminal write of a scan that the node completed.
  unfoldable pub complete_scan : List (Bool × Bool) → ScanStatus → List Act
  unfolding retry_write
  complete_scan writes st =
      if (retry_write terminal_write_attempts writes).0
      then write (finish scan_id st.nuclei_version st.templates_commit now) ∷ notify digest ∷ []
      else []

  unfoldable pub after_ingest : Answers → String → ScanStatus → Outcome Unit → List Act
  unfolding fail_scan complete_scan cleanup_node_scan
  after_ingest a id st (err e) =
      fail_scan a.writes (concat "ingest: " e) st.nuclei_version st.templates_commit
      ++ cleanup_node_scan id
  after_ingest a id st (ok u) = complete_scan a.writes st ++ cleanup_node_scan id

  unfoldable pub by_state : Answers → String → ScanStatus → NodeState → List Act
  unfolding after_ingest fail_scan cleanup_node_scan
  by_state a id st cancelled = cleanup_node_scan id
  by_state a id st failed =
      ingest id
      ∷ (fail_scan a.writes (concat "node reported failure: " st.error) st.nuclei_version
            st.templates_commit
          ++ cleanup_node_scan id)
  by_state a id st complete = ingest id ∷ after_ingest a id st a.ingested
  by_state a id st running = ingest id ∷ after_ingest a id st a.ingested

  unfoldable pub record_versions : ScanStatus → List Act
  record_versions st =
      if str_eq st.nuclei_version ""
      then []
      else (write (versions scan_id st.nuclei_version st.templates_commit) ∷ [])

  unfoldable pub after_poll : Answers → String → Outcome ScanStatus → List Act
  unfolding by_state record_versions fail_scan
  after_poll a id (err e) = fail_scan a.writes e "" ""
  after_poll a id (ok st) =
      record_versions st
      ++ (write (discovered scan_id st.discovered_targets)
          ∷ write (coverage scan_id st.covered_endpoints st.coverage_warning)
          ∷ archive_log id
          ∷ by_state a id st st.state)

  unfoldable pub after_mark : Answers → String → Outcome Bool → List Act
  unfolding after_poll abort_node_scan fail_scan
  after_mark a id (err e) =
      abort_node_scan id ++ fail_scan a.writes (concat "mark running: " e) "" commit
  after_mark a id (ok false) = abort_node_scan id
  after_mark a id (ok true) = write (start scan_id id now) ∷ after_poll a id a.poll

  unfoldable pub after_start : Answers → Outcome String → List Act
  unfolding after_mark fail_scan
  after_start a (err e) = fail_scan a.writes (concat "dispatch: " e) "" ""
  after_start a (ok id) = after_mark a id a.marked_running

  unfoldable pub after_bundle : Answers → Outcome Unit → List Act
  unfolding after_start fail_scan
  after_bundle a (err e) = fail_scan a.writes (concat "template top-up: " e) "" commit
  after_bundle a (ok u) = after_start a a.start_scan

  unfoldable pub after_client : Answers → Outcome Unit → List Act
  unfolding after_bundle fail_scan
  after_client a (err e) = fail_scan a.writes (concat "dispatch: " e) "" ""
  after_client a (ok u) = write (node scan_id node_id) ∷ after_bundle a a.bundle

  unfoldable pub run : Answers → List Act
  unfolding after_client
  run a = after_client a a.client
