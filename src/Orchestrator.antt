-- ===== src/Orchestrator.antt =====
-- The run of a task over its input rows: src/andera/orchestrator.
pub mod Recorder
pub mod Report
pub mod Worker
pub mod Sample
pub mod Crew
pub mod AgentPool
pub mod Run
pub mod Finalize
pub mod Execute
