-- ===== src/Examples.antt =====
-- The theorems at concrete inputs, and tests.
pub mod Data
mod Reaping
mod Reclaiming
mod Admitting
mod Identities
mod Reconciling
mod Routing
mod Serving
mod Resolving
mod Rendered
mod Apps
