-- ===== src/Reconciler.antt =====
-- internal/controller/workspace_controller.go: one reconcile of a workspace.
pub mod Storage
pub mod Children
pub mod Step
pub mod Phases
pub mod Reconcile
pub mod Writes
