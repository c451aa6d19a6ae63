-- ===== src/Rendering.antt =====
-- internal/controller/render.go: what is rendered for an app and for a workspace, and which apps are
-- refused before anything is.
pub mod Labels
pub mod Policies
pub mod Validate
pub mod Seed
pub mod Arguments
