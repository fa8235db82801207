-- ===== src/Storage.antt =====
-- What a run leaves on disk: src/andera/storage.
pub mod AuditLog
pub mod AuditLogPg
pub mod SafeName
pub mod Manifest
pub mod ArtifactStore
