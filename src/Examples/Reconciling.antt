-- ===== src/Examples/Reconciling.antt =====
-- The reconciler's theorems at concrete inputs.
use per_user_container_opera.Common.{
  ◌≡◌, refl, true, false, ◌↔◌, ◌⊎◌, ◌≤◌, none, some, [], ◌∷◌, codes, pos, All, ok,
}
use per_user_container_opera.Api.Workspace.{Workspace, pending, starting}
use per_user_container_opera.Api.Objects.{Deployment}
use per_user_container_opera.Cluster.{Client, World, requests}
use per_user_container_opera.Reclaimer.Deletion.{claim_key}
use per_user_container_opera.Reconciler.Storage.{Library, is_shrink, reconcile_pvc}
use per_user_container_opera.Reconciler.Storage.Laws.{
  Grows, IsStorageWrite, reconcile_pvc-StorageSafe,
}
use per_user_container_opera.Reconciler.Storage.Refusal.{reconcile_pvc_refuses}
use per_user_container_opera.Reconciler.Children.{Renderer, refreshed, ensure_deployment}
use per_user_container_opera.Reconciler.Children.Settled.{ensure_deployment_settles}
use per_user_container_opera.Reconciler.Step.{Intervals}
use per_user_container_opera.Reconciler.Phases.{reconcile_phase, reconcile_starting}
use per_user_container_opera.Reconciler.Phases.Progress.{Progress, reconcile_starting-Progress}
use per_user_container_opera.Reconciler.Phases.Transitions.{Transition}
use per_user_container_opera.Reconciler.Phases.Transitions.Table.{reconcile_phase-Transition}
use per_user_container_opera.Reconciler.Reconcile.{reconcile, workspace_finalizer}
use per_user_container_opera.Reconciler.Writes.{IsReconcileWrite}
use per_user_container_opera.Reconciler.Writes.Whole.{reconcile-IsReconcileWrite}
use per_user_container_opera.Examples.Data.{at, workspace, app, steady, status}

-- A library that keeps one condition at most, and no text.
abbrev library : Library
library = record {
  set_status_condition = λ l cond. cond ∷ [];
  remove_status_condition = λ l type. [];
  find_status_condition = λ l type. none;
  same_status = λ a b. false;
  quantity_text = λ q. [];
  decimal = λ n. [];
}

abbrev rendered : Deployment
rendered = record {
  key = record { namespace = codes "dev"; name = codes "ide-u-1" };
  annotations = [];
  replicas = some (pos 1);
  selector = [];
  template = codes "image";
  ready_replicas = pos 0;
}

abbrev renderer : Renderer
renderer = record {
  deployment = λ a ws. rendered;
  service = λ a ws. record { key = claim_key a ws; labels = []; selector = []; ports = [] };
  network_policies = λ a ws.
      record { key = claim_key a ws; pod_selector = []; ingress = none; egress = none } ∷ [];
}

abbrev intervals : Intervals
intervals = record { pending_retry = pos 0; starting_poll = pos 0; steady_state = pos 0 }

abbrev waiting : Workspace
waiting = record (workspace (codes "u-1") pending) { finalizers = workspace_finalizer ∷ [] }

-- A workspace whose volume has once been larger than the app's size.
abbrev large : Workspace
large = record waiting {
  status = record (status pending) { largest_observed_size = some (pos 20) };
}

-- A server with the app, one pending workspace, no claim and a live Deployment.
abbrev server : Client
server = record (steady (app none ∷ []) (waiting ∷ []) []) {
  get_workspace = λ k s. (ok waiting, s);
  get_app = λ k s. (ok (app none), s);
  get_deployment = λ k s. (ok (refreshed rendered rendered (pos 1)), s);
}

abbrev fresh : World (Unit {0})
fresh = record { server = tt; log = [] }

reconcile-IsReconcileWrite_example :
    All (IsReconcileWrite server library renderer (at 100) (at 101)) (
      requests
        (reconcile server library renderer intervals (at 100) (at 101) waiting.key fresh).1.log)
reconcile-IsReconcileWrite_example =
    reconcile-IsReconcileWrite server library renderer intervals (at 100) (at 101) waiting.key tt

reconcile_phase-Transition_example :
    Transition server library
      (at 100)
      (app none)
      (at 101)
      waiting
      (reconcile_phase server library renderer intervals
        (at 100)
        (at 101)
        (app none)
        pending
        waiting
        fresh).1
reconcile_phase-Transition_example =
    reconcile_phase-Transition server library renderer intervals (at 100) (at 101) (app none)
      waiting fresh

-- A start whose deadline has passed.
abbrev overdue : Workspace
overdue = record waiting { status = record (status starting) { start_deadline = some (at 50) } }

reconcile_starting-Progress_example :
    Progress server library renderer intervals (at 100) (at 101) (app none) overdue fresh (
      reconcile_starting server library renderer intervals
        (at 100)
        (at 101)
        (app none)
        overdue
        fresh)
reconcile_starting-Progress_example =
    reconcile_starting-Progress server library renderer intervals (at 100) (at 101) (app none)
      overdue fresh

reconcile_pvc-StorageSafe_example :
    Grows waiting (reconcile_pvc server library (app none) true waiting fresh).1
    × All
        (IsStorageWrite (app none) waiting)
        (requests (reconcile_pvc server library (app none) true waiting fresh).2.log)
reconcile_pvc-StorageSafe_example =
    reconcile_pvc-StorageSafe server library (app none) true waiting tt

reconcile_pvc_refuses_example :
    ((reconcile_pvc server library (app none) true waiting fresh).0 ≡ ok true)
    ↔ ((is_shrink (app none) waiting ≡ true) ⊎ (2 ≤ 0))
reconcile_pvc_refuses_example =
    reconcile_pvc_refuses server library (app none) true waiting fresh [] tt refl

ensure_deployment_settles_example :
    ensure_deployment server renderer (app none) waiting (pos 1) fresh ≡ (ok tt, fresh)
ensure_deployment_settles_example =
    ensure_deployment_settles server renderer (app none) waiting (pos 1) rendered fresh tt refl
