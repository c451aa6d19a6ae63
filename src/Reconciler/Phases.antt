-- ===== src/Reconciler/Phases.antt =====
-- internal/controller/workspace_controller.go: what a reconcile does in each phase. `now` is the
-- reading of the reconciler's clock, of which no path takes two, and `admitter_now` that of the
-- Admitter.
pub mod Raised
pub mod Transitions
pub mod Progress
use per_user_container_opera.Common.{
  Bool, true, false, not, ◌&&◌, Option, none, some, List, [], ◌∷◌, Text, codes, text_eq, Time,
  Duration, ℤ, pos, ◌-ℤ◌, ◌*◌, ltb_ℤ, leb_ℤ, wrap64, time_add, time_sub, before, second,
  if◌then◌else◌, Result, ok, err, is_not_found, is_some,
}
use per_user_container_opera.Api.Workspace.{
  Workspace, Phase, ConditionStatus, pending, starting, ready, idle, failed, unset, condition_true,
  condition_false, condition_unknown, StartFailure, crashloop, startup_timeout,
  waiting_rwop_conflict,
}
use per_user_container_opera.Api.App.{PerUserApp}
use per_user_container_opera.Api.Objects.{Deployment, Pod}
use per_user_container_opera.Cluster.{
  Client, World, M, read, Event, measured, start_seconds, reconcile_error,
}
use per_user_container_opera.Identity.UserKey.{child_name}
use per_user_container_opera.Admission.Queue.{try_admit}
use per_user_container_opera.Admission.Backoff.{record_start_failure}
use per_user_container_opera.Reclaimer.Deletion.{claim_key}
use per_user_container_opera.Reconciler.Storage.{Library, Outcome, reconcile_pvc}
use per_user_container_opera.Reconciler.Children.{
  Renderer, ensure_deployment, ensure_workspace_network_policies, create_children,
}
use per_user_container_opera.Reconciler.Step.{
  Requeue, Intervals, or_default, Step, done, after, call, first_waiting_reason, is_not_true,
  any_not_true, is_empty, is_rwop_conflict_pending, in_phase, waiting_for, woken, first_pod,
  readied, starting_from, is_overdue, is_over,
}

module _ (c : Client) (lib : Library) (renderer : Renderer) (intervals : Intervals)
    (admitter_now : Time) (now : Time) where
  -- `transitionToReady`.
  unfoldable pub transition_to_ready : PerUserApp → Option Pod → Step c.Server Requeue
  transition_to_ready app pod ws w = (
    ok none,
    readied app pod ws,
    elim ws.status.start_deadline [
      | none ↦ w
      | some deadline ↦ record w {
        log =
            measured (
              start_seconds ws.key.namespace app.key.name (
                time_sub now
                  (time_add deadline (wrap64 (pos 0 -ℤ app.spec.lifecycle.startup_timeout)))))
            ∷ w.log;
      }
    ],
  )

  -- `failStarting` after the failure has been recorded: an error is only counted.
  unfoldable pub after_record :
      PerUserApp → Workspace → Result Workspace × World c.Server → Outcome c.Server Requeue
  after_record app ws (ok counted, w) = (ok none, counted, w)
  after_record app ws (err e, w) = (
    ok none,
    ws,
    record w {
      log =
          measured (reconcile_error ws.key.namespace app.key.name (codes "record_start_failure"))
          ∷ w.log;
    },
  )

  unfoldable pub fail_starting : PerUserApp → StartFailure → Step c.Server Requeue
  unfolding after_record
  fail_starting app reason ws w =
      let failing = in_phase failed ws in
      after_record app failing (record_start_failure c admitter_now failing app reason w)

  unfoldable pub reconcile_failed : Step c.Server Requeue
  reconcile_failed ws w = (
    ok none,
    (if is_over ws.status.backoff_until now
        then record ws { status = record (ws.status) { phase = pending; backoff_until = none } }
        else ws),
    w,
  )

  -- What `reconcilePending` does with an admitted workspace, once the storage has been looked at.
  unfoldable pub start_children : PerUserApp → Bool → Step c.Server Requeue
  start_children app refused ws w =
      if refused
      then (
        ok none,
        record ws { status = record (ws.status) { phase = pending; start_deadline = none } },
        w,
      )
      else after (λ _. done none) (call ws (create_children c renderer app ws w))

  unfoldable pub start : PerUserApp → Step c.Server Requeue
  unfolding start_children
  start app ws w =
      after (start_children app) (reconcile_pvc c lib app true (starting_from app now ws) w)

  unfoldable pub admit : PerUserApp → Bool → Step c.Server Requeue
  unfolding start
  admit app admitted ws w =
      if admitted
      then start app ws w
      else (ok (some (or_default intervals.pending_retry (pos (3 * second)))), ws, w)

  unfoldable pub reconcile_pending : PerUserApp → Step c.Server Requeue
  unfolding admit
  reconcile_pending app ws w =
      after (admit app) (call ws (try_admit c lib.find_status_condition admitter_now ws app w))

  -- The head that three phases share: the storage, and unless it refuses, the policies and the rest.
  unfoldable pub unless_refused : PerUserApp → Step c.Server Requeue → Bool → Step c.Server Requeue
  unless_refused app rest refused ws w =
      if refused
      then (ok none, ws, w)
      else after (λ _. rest) (call ws (ensure_workspace_network_policies c renderer app ws w))

  unfoldable pub guarded : PerUserApp → Step c.Server Requeue → Step c.Server Requeue
  unfolding unless_refused
  guarded app rest ws w = after (unless_refused app rest) (reconcile_pvc c lib app true ws w)

  -- The deadline, at the end of `reconcileStarting`.
  unfoldable pub check_deadline : PerUserApp → Step c.Server Requeue
  unfolding fail_starting
  check_deadline app ws w =
      if is_overdue ws.status.start_deadline now
      then fail_starting app startup_timeout ws w
      else (ok (some (or_default intervals.starting_poll (pos (2 * second)))), ws, w)

  unfoldable pub check_pod : PerUserApp → Option Pod → Step c.Server Requeue
  unfolding check_deadline
  check_pod app none ws w = check_deadline app ws w
  check_pod app (some pod) ws w =
      let reason = first_waiting_reason pod.waiting in
      if text_eq reason (codes "CrashLoopBackOff")
      then fail_starting app crashloop ws w
      else if not (text_eq reason [])
      then check_deadline app (waiting_for reason ws) w
      else if is_rwop_conflict_pending pod
      then check_deadline app (waiting_for waiting_rwop_conflict ws) w
      else check_deadline app ws w

  -- The `switch` on the Deployment.
  unfoldable pub check_deployment :
      PerUserApp
      → Option Pod
      → Workspace
      → Result Deployment × World c.Server
      → Outcome c.Server Requeue
  unfolding check_pod transition_to_ready
  check_deployment app pod ws (ok dep, w) =
      if leb_ℤ (pos 1) dep.ready_replicas
      then transition_to_ready app pod ws w
      else check_pod app pod ws w
  check_deployment app pod ws (err e, w) =
      if is_not_found e
      then if is_some ws.status.backoff_until
        then (ok none, in_phase failed ws, w)
        else check_pod app pod ws w
      else (err e, ws, w)

  unfoldable pub workspace_pods :
      PerUserApp → Workspace → World c.Server → Outcome c.Server (List Pod)
  workspace_pods app ws w =
      call ws (read (c.list_pods ws.key.namespace app.key.name ws.spec.user_key) w)

  unfoldable pub judge : PerUserApp → List Pod → Step c.Server Requeue
  unfolding check_deployment
  judge app pods ws w =
      check_deployment app (first_pod pods) ws (read (c.get_deployment (claim_key app ws)) w)

  unfoldable pub check_start : PerUserApp → Step c.Server Requeue
  unfolding workspace_pods judge
  check_start app ws w = after (judge app) (workspace_pods app ws w)

  unfoldable pub reconcile_starting : PerUserApp → Step c.Server Requeue
  unfolding guarded check_start
  reconcile_starting app = guarded app (check_start app)

  -- Scaling down: Idle once no pod is left.
  unfoldable pub settle : List Pod → Step c.Server Requeue
  settle pods ws w =
      if is_empty pods
      then (ok none, in_phase idle ws, w)
      else (ok (some (or_default intervals.steady_state (pos (30 * second)))), ws, w)

  unfoldable pub await_pods : PerUserApp → Unit {0} → Step c.Server Requeue
  unfolding workspace_pods settle
  await_pods app u ws w = after settle (workspace_pods app ws w)

  unfoldable pub scale_to_zero : PerUserApp → Step c.Server Requeue
  unfolding await_pods
  scale_to_zero app ws w =
      after (await_pods app) (call ws (ensure_deployment c renderer app ws (pos 0) w))

  unfoldable pub check_ready : PerUserApp → Step c.Server Requeue
  unfolding scale_to_zero
  check_ready app ws w =
      if is_some ws.status.wake_requested_at
      then (ok none, woken ws, w)
      else if ws.status.scaled_down
      then scale_to_zero app ws w
      else (ok none, ws, w)

  unfoldable pub reconcile_ready : PerUserApp → Step c.Server Requeue
  unfolding guarded check_ready
  reconcile_ready app = guarded app (check_ready app)

  unfoldable pub check_idle : Step c.Server Requeue
  check_idle ws w = (ok none, (if is_some ws.status.wake_requested_at then woken ws else ws), w)

  unfoldable pub reconcile_idle : PerUserApp → Step c.Server Requeue
  unfolding guarded check_idle
  reconcile_idle app = guarded app check_idle

  -- The `switch` on the phase.
  unfoldable pub reconcile_phase : PerUserApp → Phase → Step c.Server Requeue
  reconcile_phase app pending = reconcile_pending app
  reconcile_phase app starting = reconcile_starting app
  reconcile_phase app ready = reconcile_ready app
  reconcile_phase app idle = reconcile_idle app
  reconcile_phase app failed = reconcile_failed
  reconcile_phase app unset = done none
