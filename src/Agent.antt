-- ===== src/Agent.antt =====
-- The agent that executes one sample: src/andera/agent.
pub mod Observations
pub mod Effect
pub mod Step
pub mod Tools
pub mod Descriptor
pub mod State
pub mod Plan
pub mod Act
pub mod Verify
pub mod Extract
pub mod Reply
pub mod Graph
pub mod PlanCache
