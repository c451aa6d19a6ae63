-- ===== src/Admission.antt =====
-- internal/controller/admission.go: which pending workspaces may start, the backoff after failures,
-- and what a new leader does with workspaces that were starting.
pub mod Queue
pub mod Backoff
pub mod Lease
