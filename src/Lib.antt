-- ===== src/Lib.antt =====
-- Goodnight Check, a security centre that runs Nuclei on scanner nodes and keeps the life of every
-- finding. A backend (internal/backend) submits scans, sends them to nodes, polls them and ingests
-- their results; a node (internal/scanner) runs each scan as a job; the store (internal/store) keeps
-- scans, findings and notifications in PostgreSQL.
--
-- Where each part is modelled:
-- - Admission/Node: the counter of internal/scanner/admission.go; Admission/Backend: the per-node
--   counters of internal/backend/admission.go. A mutex makes a method one step.
-- - Store: the tables as lists of rows (Store/Rows), each statement of a scan's life in
--   internal/store/store.go as a function on them (Store/Scans, Store/Complete, Store/Digest), and
--   any sequence of statements (Store/Statements); the row of an import and the rows that a deletion
--   removes (Store/Writes). `now()` is an argument.
-- - Lifecycle: the upsert of ingestFindingOccurrence and the pointer of MarkComplete
--   (Lifecycle/Ingest), computeLifecycleTimeline (Lifecycle/Timeline) with the test of which scans
--   cover a finding (Lifecycle/Repair), both paths side by side (Lifecycle/Scope), and the states that are read
--   (Lifecycle/Detection), from internal/store/lifecycle.go and lifecycle_repair.go.
-- - Orchestrator: the reader of one record (Orchestrator/Records), the ingest loop
--   (Orchestrator/Ingest), the submission (Orchestrator/Submit), the waits (Orchestrator/Dispatch)
--   and a whole run (Orchestrator/Run) of internal/backend/orchestrator.go.
-- - Runner: a node's jobs and their registry, internal/scanner/runner.go.
-- - Scope: the allowlist of internal/backend/scope.go. Identity: the keys of
--   internal/store/lifecycle.go.
-- - Login: the client table and the walk over X-Forwarded-For of
--   internal/backend/auth_login_admission.go. Nodes: selectNode and the checked writes of
--   internal/store/nodes.go.
-- - FindingQuery: the findings filter of internal/store/findingquery.go: the request and its
--   allowlists (FindingQuery), patterns (Like), the clauses (Compile, Typed, Where), the rows that SQL
--   selects (Rows), and what the filter asks, stated without SQL (Meaning).
-- - Auth: the gates before a handler, internal/backend/authz.go, audit.go and serviceaccounts.go
--   (Auth), csrf.go (Auth/Origin); the sessions and login flows of internal/store/auth.go
--   (Auth/Sessions).
-- - Trace: the endpoints that a request trace covers, internal/scanner/coverage.go, with the endpoint
--   keys of internal/types/endpointkey.go. Stats: the line writer of internal/scanner/stats.go.
-- - Scheduler: the tick of internal/backend/scheduler.go on the rows of internal/store/schedules.go.
-- - CommandLog: the record of a scanner command, internal/scanner/commandlog.go.
-- - Examples: runs on concrete data. Common: Boolean tests, lists, Go's int and maps.
--
-- How they interact: Orchestrator/Run makes statements of Store/Statements; MarkComplete there moves
-- the pointer that Lifecycle/Ingest reads; Orchestrator/Ingest reads through Orchestrator/Records.
-- Auth/Gate joins the gate of the role with that of the origin.
--
-- Parameters stand for code outside the repository: the JSON parser, PostgreSQL's `lower`, the
-- parsers of addresses, URLs, times and numbers, hashes, the cron package,
-- the token bucket. What a node, a database or a context answers is a
-- list or a record of answers. Fuel is used by the ingest loop, one more round than the stream has
-- slices, since a read takes a slice or reports the end, and by the eviction of login clients, whose
-- fuel is the number of clients, since each round takes one.
--
-- Not modelled: HTTP, SMTP, object storage, subprocesses and archives, which are input and output;
-- the OIDC exchange; templates, retention and exports.
pub mod Common
pub mod Admission
pub mod Store
pub mod Lifecycle
pub mod Orchestrator
pub mod Scope
pub mod Identity
pub mod Runner
pub mod Examples
pub mod Login
pub mod Nodes
pub mod FindingQuery
pub mod Auth
pub mod CommandLog
pub mod Trace
pub mod Stats
pub mod Scheduler
