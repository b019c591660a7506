-- ===== src/Examples.antt =====
-- Concrete runs of the models: the theorems at inputs on which their hypotheses hold, and tests.
mod Data
mod Admission
mod Store
mod Lifecycle
mod Orchestrator
mod Runner
mod Guards
mod Login
mod Nodes
mod Queries
mod Auth
mod Commands
mod Trace
mod Scheduler
