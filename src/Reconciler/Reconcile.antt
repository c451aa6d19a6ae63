-- ===== src/Reconciler/Reconcile.antt =====
-- internal/controller/workspace_controller.go: `Reconcile` around the phases, `reconcileDelete` and
-- `refreshGauges`.
use per_user_container_opera.Common.{
  ℕ, Bool, not, none, List, [], ◌∷◌, ◌++◌, map, Text, codes, text_eq, Time, any, keep, length,
  if◌then◌else◌, Result, ok, err, is_not_found, is_some, map_get,
}
use per_user_container_opera.Api.Workspace.{
  Workspace, Key, Phase, unset, pending, starting, ready, idle, failed, phase_eq, ann_user_display,
}
use per_user_container_opera.Api.App.{PerUserApp}
use per_user_container_opera.Cluster.{
  Client, World, M, ◌>>=◌, ◌>>◌, pure, read, emit, send, send_status_patch, measured, Metric,
  user_info, user_info_deleted, workspaces_by_phase, claims_total, reconcile_error,
  update_workspace,
}
use per_user_container_opera.Reconciler.Storage.{Library, Outcome, value_or}
use per_user_container_opera.Reconciler.Children.{Renderer}
use per_user_container_opera.Reconciler.Step.{Requeue, Intervals, in_phase}
use per_user_container_opera.Reconciler.Phases.{reconcile_phase}

abbrev pub workspace_finalizer : Text
workspace_finalizer = codes "puc.kettleofketchup/workspace-cleanup"

-- `ContainsFinalizer`, `AddFinalizer` and `RemoveFinalizer` on a workspace.
abbrev pub has_finalizer : Workspace → Bool
has_finalizer ws = any (λ f. text_eq f workspace_finalizer) ws.finalizers

abbrev pub with_finalizer : Workspace → Workspace
with_finalizer ws = record ws { finalizers = ws.finalizers ++ (workspace_finalizer ∷ []) }

abbrev pub without_finalizer : Workspace → Workspace
without_finalizer ws = record ws {
  finalizers = keep (λ f. not (text_eq f workspace_finalizer)) ws.finalizers;
}

abbrev pub user_display : Workspace → Text
user_display ws = value_or [] (map_get ann_user_display ws.annotations)

abbrev pub count_phase : List Workspace → Phase → ℕ
count_phase l phase = length (keep (λ ws. phase_eq ws.status.phase phase) l)

-- Metrics, the first one counted first.
abbrev pub count_metrics : {S : Type 0} → List Metric → World S → World S
count_metrics [] w = w
count_metrics (m ∷ rest) w = count_metrics rest (record w { log = measured m ∷ w.log })

module _ (c : Client) where
  unfoldable pub let_go : Workspace → M c.Server Requeue
  let_go ws = do
    emit (
        measured
          (user_info_deleted ws.key.namespace ws.spec.app_ref ws.spec.user_key (user_display ws)))
    send c (update_workspace (without_finalizer ws))
    pure none

  -- `reconcileDelete`.
  unfoldable pub reconcile_delete : Workspace → M c.Server Requeue
  unfolding let_go
  reconcile_delete ws = if has_finalizer ws then let_go ws else pure none

  unfoldable pub count_phases : Text → Text → List Workspace → M c.Server (Unit {0})
  count_phases ns app workspaces w = (
    ok tt,
    count_metrics
        (map (λ phase. workspaces_by_phase ns app phase (count_phase workspaces phase))
          (pending ∷ starting ∷ ready ∷ idle ∷ failed ∷ []))
        w,
  )

  -- `refreshGauges`.
  unfoldable pub refresh_gauges : Text → Text → M c.Server (Unit {0})
  refresh_gauges ns app = do
    workspaces ← read (c.list_workspaces ns app)
    count_phases ns app workspaces
    claims ← read (c.list_claims ns app)
    emit (measured (claims_total ns app (length claims)))

module _ (c : Client) (lib : Library) (renderer : Renderer) (intervals : Intervals)
    (admitter_now : Time) (now : Time) where
  -- `patchStatusIfChanged`.
  unfoldable pub patch_status_if_changed : Workspace → Workspace → M c.Server (Unit {0})
  patch_status_if_changed base ws =
      if lib.same_status base.status ws.status
      then pure tt
      else send_status_patch c base ws >>= (λ _. pure tt)

  -- The first of the two errors.
  unfoldable pub combine : Result Requeue → Result (Unit {0}) → Result Requeue
  combine (ok requeue) (ok u) = ok requeue
  combine (ok requeue) (err e) = err e
  combine (err e) r = err e

  unfoldable pub count_error :
      Workspace → PerUserApp → Result Requeue × World c.Server → Result Requeue × World c.Server
  count_error ws app (ok requeue, w) = (ok requeue, w)
  count_error ws app (err e, w) = (
    err e,
    record w {
      log = measured (reconcile_error ws.key.namespace app.key.name (codes "reconcile")) ∷ w.log;
    },
  )

  -- The end of `Reconcile`: the status is patched even if the phase ended with an error.
  unfoldable pub finish :
      Workspace
      → PerUserApp
      → Result Requeue
      → Result (Unit {0}) × World c.Server
      → Result Requeue × World c.Server
  unfolding combine count_error
  finish ws app r (p, w) = count_error ws app (combine r p, w)

  unfoldable pub persist :
      Workspace → PerUserApp → Outcome c.Server Requeue → Result Requeue × World c.Server
  unfolding patch_status_if_changed finish
  persist base app (r, ws, w) = finish ws app r (patch_status_if_changed base ws w)

  unfoldable pub run_phase : Workspace → PerUserApp → M c.Server Requeue
  unfolding persist
  run_phase ws app w =
      persist ws app
        (reconcile_phase c lib renderer intervals admitter_now now app ws.status.phase ws w)

  -- A live workspace with its finalizer, its phase and its app.
  unfoldable pub reconcile_app : Workspace → PerUserApp → M c.Server Requeue
  unfolding run_phase
  reconcile_app ws app = do
    emit (measured (user_info ws.key.namespace app.key.name ws.spec.user_key (user_display ws)))
    refresh_gauges c ws.key.namespace app.key.name
    run_phase ws app

  unfoldable pub find_app :
      Workspace → Result PerUserApp × World c.Server → Result Requeue × World c.Server
  unfolding reconcile_app
  find_app ws (ok app, w) = reconcile_app ws app w
  find_app ws (err e, w) = (
    err e,
    record w {
      log =
          measured (reconcile_error ws.key.namespace ws.spec.app_ref (codes "app_not_found"))
          ∷ w.log;
    },
  )

  unfoldable pub reconcile_workspace : Workspace → M c.Server Requeue
  unfolding find_app
  reconcile_workspace ws w =
      if is_some ws.deletion_timestamp
      then reconcile_delete c ws w
      else if not (has_finalizer ws)
      then (send c (update_workspace (with_finalizer ws)) >>= (λ _. pure none)) w
      else if phase_eq ws.status.phase unset
      then (send_status_patch c ws (in_phase pending ws) >>= (λ _. pure none)) w
      else find_app ws
          (read (c.get_app (record { namespace = ws.key.namespace; name = ws.spec.app_ref })) w)

  unfoldable pub reconcile_found :
      Result Workspace × World c.Server → Result Requeue × World c.Server
  unfolding reconcile_workspace
  reconcile_found (ok ws, w) = reconcile_workspace ws w
  reconcile_found (err e, w) = (if is_not_found e then ok none else err e, w)

  -- `Reconcile`.
  unfoldable pub reconcile : Key → M c.Server Requeue
  unfolding reconcile_found
  reconcile key w = reconcile_found (read (c.get_workspace key) w)
