-- ===== src/Api.antt =====
-- api/v1alpha1: the phases, the condition types and the constants, and the Workspace object with
-- its status. Api/App.antt has the PerUserApp object, Api/Objects.antt the Kubernetes objects that the
-- controllers read and write, and Api/Network.antt NetworkPolicies and their peers.
pub mod Workspace
pub mod Network
pub mod App
pub mod Objects
