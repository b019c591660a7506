-- ===== src/Store/States.antt =====
-- The states of a scan over any sequence of statements.
pub mod Tables
pub mod Moves
pub mod Finality
pub mod Outbox
pub mod Told
pub mod Written
pub mod Evidence
pub mod Pointer
pub mod Tally
