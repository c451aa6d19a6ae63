-- ===== src/Startup.antt =====
-- cmd/main.go and cmd/controller.go: the arguments of both programs, what a new leader makes of the Lease, and
-- the permissions that are probed for (internal/rbacspec/rbacspec.go).
pub mod Flags
pub mod Reading
pub mod Contract
pub mod Leader
pub mod Controller
pub mod Permissions
pub mod Granted
