-- ===== src/Reclaimer.antt =====
-- internal/controller/reclaimer.go: deleting the least recently used workspaces of an app that is
-- over its target, with their claims.
pub mod Selection
pub mod Deletion
pub mod Pass
