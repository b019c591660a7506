-- ===== src/Store.antt =====
-- The rows and the statements of internal/store that drive a scan and its findings.
pub mod Rows
pub mod Scans
pub mod Digest
pub mod Complete
pub mod Statements
pub mod Writes
pub mod States
