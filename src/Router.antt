-- ===== src/Router.antt =====
-- internal/router: what the router does with the Workspaces of its app.
pub mod Connections
pub mod Resolver
pub mod Config
pub mod Auth
pub mod Headers
pub mod Ensure
pub mod Serve
