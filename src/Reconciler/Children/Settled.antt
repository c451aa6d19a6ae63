-- ===== src/Reconciler/Children/Settled.antt =====
-- ensureDeployment on a Deployment that it has patched before
-- (internal/controller/workspace_controller.go).
use per_user_container_opera.Common.{
  ◌≡◌, refl, false, not, List, [], Text, text_eq, text_eq_refl, ℤ, if_cases, map_get, map_set,
  map_get-map_set, ok, arith,
}
use per_user_container_opera.Api.Workspace.{Workspace, ann_spec_hash}
use per_user_container_opera.Api.App.{PerUserApp}
use per_user_container_opera.Api.Objects.{Deployment}
use per_user_container_opera.Cluster.{Client, World}
use per_user_container_opera.Reclaimer.Deletion.{claim_key}
use per_user_container_opera.Reconciler.Storage.{value_or}
use per_user_container_opera.Reconciler.Children.{
  Renderer, spec_hash, is_stale, is_scaled, refreshed, update_deployment, ensure_deployment,
}

set_hash :
    (k h : Text) (m : List (Text × Text))
    → not (text_eq (value_or [] (map_get k (map_set k h m))) h) ≡ false
set_hash k h m = rw (map_get-map_set k k h m, text_eq_refl k, text_eq_refl h) refl

is_stale-refreshed :
    (dep desired : Deployment) (want : ℤ) → is_stale (refreshed dep desired want) desired ≡ false
is_stale-refreshed dep desired want =
    if_cases (λ (d : Deployment). is_stale d desired ≡ false) (is_stale dep desired) _ _
      (λ t. set_hash ann_spec_hash (spec_hash desired) dep.annotations) (λ t. t)

is_scaled-refreshed :
    (dep desired : Deployment) (want : ℤ) → is_scaled (refreshed dep desired want) want ≡ false
is_scaled-refreshed dep desired want =
    if_cases (λ (d : Deployment). is_scaled d want ≡ false) (is_stale dep desired) _ _
      (λ t. ground arith) (λ t. ground arith)

-- If the Deployment is as the last `ensureDeployment` patched it to, another one for the same number
-- of replicas succeeds and writes nothing: the spec hash settles, however the rest of the live
-- object was defaulted.
pub ensure_deployment_settles :
    (c : Client) (renderer : Renderer) (app : PerUserApp) (ws : Workspace) (want : ℤ)
    (dep : Deployment) (w : World c.Server) (s : c.Server)
    → c.get_deployment (claim_key app ws) w.server
      ≡ (ok (refreshed dep (renderer.deployment app ws) want), s)
    → ensure_deployment c renderer app ws want w ≡ (ok tt, record w { server = s })
unfolding ensure_deployment update_deployment
ensure_deployment_settles c renderer app ws want dep w s e =
    rw
      (
        e,
        ensure_deployment,
        is_stale-refreshed dep (renderer.deployment app ws) want,
        is_scaled-refreshed dep (renderer.deployment app ws) want,
      )
      refl
