-- ===== src/Identity.antt =====
-- internal/identity: who the caller of a request is, and the key of that user's resources.
pub mod Extract
pub mod UserKey
