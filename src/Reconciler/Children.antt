-- ===== src/Reconciler/Children.antt =====
-- internal/controller/workspace_controller.go: the Deployment, the Service and the NetworkPolicies of
-- a workspace. What they are rendered as (`RenderWorkspaceDeployment`, `RenderWorkspaceService` and
-- `RenderWorkspaceNetworkPolicies` of render.go) is a parameter.
pub mod Settled
use per_user_container_opera.Common.{
  ◌≡◌, Bool, true, false, not, ◌||◌, Option, none, some, List, [], ◌∷◌, Text, codes, text_eq, ℤ,
  pos, eqb_ℤ, if◌then◌else◌, Result, ok, err, is_not_found, is_already_exists, map_get, map_set,
}
use per_user_container_opera.Api.Workspace.{Workspace, Key, ann_spec_hash}
use per_user_container_opera.Api.App.{PerUserApp}
use per_user_container_opera.Api.Objects.{Deployment, Service, NetworkPolicy}
use per_user_container_opera.Cluster.{
  Client, World, M, ◌>>=◌, ◌>>◌, then_step, pure, read, emit, send, create_deployment,
  patch_deployment, create_service, apply_policy, measured, workspace_start,
}
use per_user_container_opera.Reclaimer.Deletion.{claim_key}
use per_user_container_opera.Reconciler.Storage.{value_or}

pub record Renderer : Type 0 where
  pub deployment : PerUserApp → Workspace → Deployment
  pub service : PerUserApp → Workspace → Service
  pub network_policies : PerUserApp → Workspace → List NetworkPolicy

abbrev pub spec_hash : Deployment → Text
spec_hash dep = value_or [] (map_get ann_spec_hash dep.annotations)

-- `stale`, and `scaled`.
abbrev pub is_stale : Deployment → Deployment → Bool
is_stale dep desired = not (text_eq (spec_hash dep) (spec_hash desired))

abbrev pub is_scaled : Deployment → ℤ → Bool
is_scaled dep want = elim dep.replicas [ none ↦ true | some n ↦ not (eqb_ℤ n want) ]

-- The Deployment as it is patched to: the rendered spec if it is stale, but always the live selector.
abbrev pub refreshed : Deployment → Deployment → ℤ → Deployment
refreshed dep desired want =
    if is_stale dep desired
    then record dep {
      template = desired.template;
      annotations = map_set ann_spec_hash (spec_hash desired) dep.annotations;
      replicas = some want;
    }
    else record dep { replicas = some want }

module _ (c : Client) (renderer : Renderer) where
  -- After the Deployment has been read.
  unfoldable pub update_deployment :
      PerUserApp
      → Workspace
      → ℤ
      → Result Deployment × World c.Server
      → Result (Unit {0}) × World c.Server
  update_deployment app ws want (ok dep, w) =
      let desired = renderer.deployment app ws in
      if is_stale dep desired || is_scaled dep want
      then send c (patch_deployment dep (refreshed dep desired want)) w
      else (ok tt, w)
  update_deployment app ws want (err e, w) = (if is_not_found e then ok tt else err e, w)

  unfoldable pub ensure_deployment : PerUserApp → Workspace → ℤ → M c.Server (Unit {0})
  unfolding update_deployment
  ensure_deployment app ws want w =
      update_deployment app ws want (read (c.get_deployment (claim_key app ws)) w)

  unfoldable pub apply_policies : List NetworkPolicy → M c.Server (Unit {0})
  apply_policies [] = pure tt
  apply_policies (policy ∷ rest) = do send c (apply_policy policy); apply_policies rest

  unfoldable pub ensure_workspace_network_policies : PerUserApp → Workspace → M c.Server (Unit {0})
  unfolding apply_policies
  ensure_workspace_network_policies app ws = apply_policies (renderer.network_policies app ws)

  -- What follows the creation of the Deployment.
  unfoldable pub after_deployment :
      PerUserApp
      → Workspace
      → Result (Unit {0}) × World c.Server
      → Result (Unit {0}) × World c.Server
  after_deployment app ws (ok u, w) = (ok u, w)
  after_deployment app ws (err e, w) =
      if is_already_exists e then ensure_deployment app ws (pos 1) w else (err e, w)

  unfoldable pub after_service :
      Result (Unit {0}) × World c.Server → Result (Unit {0}) × World c.Server
  after_service (ok u, w) = (ok u, w)
  after_service (err e, w) = (if is_already_exists e then ok tt else err e, w)

  -- The end of `reconcilePending`, once the storage is settled.
  unfoldable pub create_children : PerUserApp → Workspace → M c.Server (Unit {0})
  unfolding after_deployment after_service
  create_children app ws = do
    λ w. after_deployment app ws (send c (create_deployment (renderer.deployment app ws)) w)
    λ w. after_service (send c (create_service (renderer.service app ws)) w)
    ensure_workspace_network_policies app ws
    emit (measured (workspace_start ws.key.namespace app.key.name (codes "admitted")))
