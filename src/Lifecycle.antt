-- ===== src/Lifecycle.antt =====
-- The lifecycle of a deduplicated finding: internal/store/lifecycle.go, lifecycle_repair.go, and
-- the lifecycle half of `MarkComplete` in store.go.
pub mod Ingest
pub mod Timeline
pub mod Agreement
pub mod Repair
pub mod Scope
pub mod Gaps
pub mod Detection
pub mod Overlap
