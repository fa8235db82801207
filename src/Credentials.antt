-- ===== src/Credentials.antt =====
-- The sealed sessions of the operator, and the detection of a lost login: src/andera/credentials.
pub mod Detect
pub mod StorageState
