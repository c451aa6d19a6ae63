-- ===== src/Reconciler/Writes.antt =====
-- What one reconcile may write (internal/controller/workspace_controller.go), and what of it is written
-- for the children.
pub mod Phased
pub mod Whole
use mathlib.Core.List.{Memᴰ}
use per_user_container_opera.Common.{
  ◌≡◌, refl, Bool, true, false, ◌||◌, Option, none, some, List, [], ◌∷◌, Text, Time, ℤ, pos,
  if_cases, Result, ok, err, is_not_found, is_already_exists, is_some, All, All-members,
}
use per_user_container_opera.Api.Workspace.{Workspace, Key, unset, pending, failed}
use per_user_container_opera.Api.App.{PerUserApp}
use per_user_container_opera.Api.Objects.{Claim, Deployment, NetworkPolicy}
use per_user_container_opera.Cluster.{
  Client, World, M, ◌>>=◌, then_step, pure, read, send, emit, Request, requests, update_workspace,
  patch_workspace_status, create_deployment, patch_deployment, create_service, apply_policy,
}
use per_user_container_opera.Cluster.Keeps.{Keeps, Keeps-bind, Keeps-send}
use per_user_container_opera.Admission.Backoff.{failed_start}
use per_user_container_opera.Reclaimer.Deletion.{claim_key}
use per_user_container_opera.Reconciler.Storage.Laws.{Grows, IsStorageWrite}
use per_user_container_opera.Reconciler.Children.{
  Renderer, is_stale, is_scaled, refreshed, update_deployment, ensure_deployment, apply_policies,
  ensure_workspace_network_policies, after_deployment, after_service, create_children,
}
use per_user_container_opera.Reconciler.Storage.{Library}
use per_user_container_opera.Reconciler.Step.{in_phase}
use per_user_container_opera.Reconciler.Phases.Transitions.{Transition}
use per_user_container_opera.Reconciler.Reconcile.{has_finalizer, with_finalizer, without_finalizer}

-- The writes of a reconcile: the finalizer of a workspace set, or let go of one that is being
-- deleted; a status that is a first one, that counts a failure of a Failed workspace, or that moves
-- by the phase table and keeps or raises the largest observed size; the storage's writes; and the
-- rendered children, of which a Deployment that exists keeps its selector. No delete is among them.
pub data IsReconcileWrite (c : Client) (lib : Library) (renderer : Renderer)
    (admitter_now now : Time) : Request → Type 0 where
  registers :
      (ws : Workspace)
      → is_some ws.deletion_timestamp ≡ false
      → has_finalizer ws ≡ false
      → IsReconcileWrite c lib renderer admitter_now now (update_workspace (with_finalizer ws))
  releases :
      (ws : Workspace)
      → is_some ws.deletion_timestamp ≡ true
      → IsReconcileWrite c lib renderer admitter_now now (update_workspace (without_finalizer ws))
  enters :
      (ws : Workspace)
      → ws.status.phase ≡ unset
      → IsReconcileWrite c lib renderer admitter_now now
          (patch_workspace_status ws (in_phase pending ws))
  moves :
      (app : PerUserApp) (ws v : Workspace)
      → Transition c lib admitter_now app now ws v
      → Grows ws v
      → IsReconcileWrite c lib renderer admitter_now now (patch_workspace_status ws v)
  counts :
      (app : PerUserApp) (ws : Workspace)
      → ws.status.phase ≡ failed
      → IsReconcileWrite c lib renderer admitter_now now
          (patch_workspace_status ws (failed_start admitter_now ws app))
  stores :
      (app : PerUserApp) (ws : Workspace) (q : Request)
      → IsStorageWrite app ws q
      → IsReconcileWrite c lib renderer admitter_now now q
  deploys :
      (app : PerUserApp) (ws : Workspace)
      → IsReconcileWrite c lib renderer admitter_now now
          (create_deployment (renderer.deployment app ws))
  redeploys :
      (app : PerUserApp) (ws : Workspace) (dep : Deployment) (want : ℤ)
      → (is_stale dep (renderer.deployment app ws) || is_scaled dep want) ≡ true
      → IsReconcileWrite c lib renderer admitter_now now
          (patch_deployment dep (refreshed dep (renderer.deployment app ws) want))
  serves :
      (app : PerUserApp) (ws : Workspace)
      → IsReconcileWrite c lib renderer admitter_now now (create_service (renderer.service app ws))
  isolates :
      (app : PerUserApp) (ws : Workspace) (policy : NetworkPolicy)
      → Memᴰ policy (renderer.network_policies app ws)
      → IsReconcileWrite c lib renderer admitter_now now (apply_policy policy)

module _ (c : Client) (lib : Library) (renderer : Renderer) (admitter_now now : Time) where
  abbrev pub Writes : Request → Type 0
  Writes = IsReconcileWrite c lib renderer admitter_now now

  abbrev pub Fine : World c.Server → Type 0
  Fine w = All Writes (requests w.log)

  update_deployment-Fine :
      (app : PerUserApp) (ws : Workspace) (want : ℤ) (r : Result Deployment × World c.Server)
      → Fine r.1
      → Fine (update_deployment c renderer app ws want r).1
  unfolding update_deployment
  update_deployment-Fine app ws want (ok dep, w) h =
      let desired = renderer.deployment app ws in
      if_cases (λ (o : Result (Unit {0}) × World c.Server). Fine o.1)
        (is_stale dep desired || is_scaled dep want) _ (ok tt, w)
        (λ t.
          Keeps-send c Writes (patch_deployment dep (refreshed dep desired want))
            (redeploys app ws dep want t) w h)
        (λ t. h)
  update_deployment-Fine app ws want (err e, w) h = h

  pub ensure_deployment-Fine :
      (app : PerUserApp) (ws : Workspace) (want : ℤ)
      → Keeps Writes (ensure_deployment c renderer app ws want)
  unfolding ensure_deployment
  ensure_deployment-Fine app ws want w h =
      update_deployment-Fine app ws want (read (c.get_deployment (claim_key app ws)) w) h

  apply_policies-Fine :
      (l : List NetworkPolicy)
      → All (λ policy. Writes (apply_policy policy)) l
      → Keeps Writes (apply_policies c renderer l)
  unfolding apply_policies
  apply_policies-Fine [] a = λ w h. h
  apply_policies-Fine (policy ∷ rest) a =
      Keeps-bind Writes (send c (apply_policy policy)) (λ _. apply_policies c renderer rest)
        (Keeps-send c Writes (apply_policy policy) a.0) (λ _. apply_policies-Fine rest a.1)

  pub policies-Fine :
      (app : PerUserApp) (ws : Workspace)
      → Keeps Writes (ensure_workspace_network_policies c renderer app ws)
  unfolding ensure_workspace_network_policies
  policies-Fine app ws = apply_policies-Fine (renderer.network_policies app ws) (
      All-members (λ policy. Writes (apply_policy policy)) (renderer.network_policies app ws)
        (λ policy m. isolates app ws policy m))

  after_deployment-Fine :
      (app : PerUserApp) (ws : Workspace) (r : Result (Unit {0}) × World c.Server)
      → Fine r.1
      → Fine (after_deployment c renderer app ws r).1
  unfolding after_deployment
  after_deployment-Fine app ws (ok u, w) h = h
  after_deployment-Fine app ws (err e, w) h =
      if_cases (λ (o : Result (Unit {0}) × World c.Server). Fine o.1) (is_already_exists e)
        (ensure_deployment c renderer app ws (pos 1) w) (err e, w)
        (λ t. ensure_deployment-Fine app ws (pos 1) w h) (λ t. h)

  after_service-Fine :
      (r : Result (Unit {0}) × World c.Server) → Fine r.1 → Fine (after_service c renderer r).1
  unfolding after_service
  after_service-Fine (ok u, w) h = h
  after_service-Fine (err e, w) h = h

  pub create_children-Fine :
      (app : PerUserApp) (ws : Workspace) → Keeps Writes (create_children c renderer app ws)
  unfolding create_children
  create_children-Fine app ws =
      Keeps-bind Writes
        (λ w.
          after_deployment c renderer app ws
            (send c (create_deployment (renderer.deployment app ws)) w))
        _
        (λ w h.
          after_deployment-Fine app ws (send c (create_deployment (renderer.deployment app ws)) w) (
            Keeps-send c Writes (create_deployment (renderer.deployment app ws)) (deploys app ws) w
              h))
        (λ _.
          Keeps-bind Writes
            (λ w. after_service c renderer (send c (create_service (renderer.service app ws)) w)) _
            (λ w h.
              after_service-Fine (send c (create_service (renderer.service app ws)) w) (
                Keeps-send c Writes (create_service (renderer.service app ws)) (serves app ws) w h))
            (λ _.
              Keeps-bind Writes (ensure_workspace_network_policies c renderer app ws) _
                (policies-Fine app ws) (λ _ w h. h)))
