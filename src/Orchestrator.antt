-- ===== src/Orchestrator.antt =====
-- The driver of a scan, internal/backend/orchestrator.go.
pub mod Records
pub mod Ingest
pub mod Dispatch
pub mod Run
pub mod Submit
