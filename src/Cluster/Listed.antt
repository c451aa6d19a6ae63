-- ===== src/Cluster/Listed.antt =====
-- What the Kubernetes API client has listed for a pass (`client.Client.List`).
use per_user_container_opera.Common.{◌≡◌, List, ok}
use mathlib.Core.List.{Memᴰ}
use per_user_container_opera.Api.Workspace.{Workspace}
use per_user_container_opera.Api.App.{PerUserApp}
use per_user_container_opera.Api.Objects.{Claim}
use per_user_container_opera.Cluster.{Client}

module _ (c : Client) where
  -- An app of the list that the server answers with at that state.
  abbrev pub IsListedApp : c.Server → PerUserApp → Type 0
  IsListedApp s app =
      (apps : List PerUserApp) × (t : c.Server) × (c.list_apps s ≡ (ok apps, t)) × Memᴰ app apps

  -- The list of the workspaces of an app, as the server answers it at some state.
  abbrev pub IsListing : PerUserApp → List Workspace → Type 0
  IsListing app workspaces =
      (s : c.Server) × (t : c.Server) × (c.list_workspaces app.key.namespace app.key.name s
        ≡ (ok workspaces, t))

  -- A claim of the list of the claims of an app, likewise.
  abbrev pub IsListedClaim : PerUserApp → Claim → Type 0
  IsListedClaim app claim =
      (s : c.Server) × (t : c.Server) × (claims : List Claim) × (c.list_claims app.key.namespace
          app.key.name s
        ≡ (ok claims, t))
      × Memᴰ claim claims
