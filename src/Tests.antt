-- ===== src/Tests.antt =====
-- Runs of the model on concrete data, and the theorems applied to them.
pub mod Work
pub mod Sample
pub mod Audit
pub mod Results
pub mod Plans
pub mod Redis
pub mod Crew
pub mod Desk
pub mod Store
pub mod Service
pub mod Execute
pub mod Replies
pub mod Settings
