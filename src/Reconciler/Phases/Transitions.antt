-- ===== src/Reconciler/Phases/Transitions.antt =====
-- The phase table of a reconcile (internal/controller/workspace_controller.go).
pub mod Table
use per_user_container_opera.Common.{
  ◌≡◌, refl, sym, ap, ◌∙◌, ◌⊎◌, inl, inr, Bool, true, false, Option, none, some, List, [], Text,
  text_eq, codes, Time, ℤ, pos, ◌<ℤ◌, ◌≤ℤ◌, text_eq_iff, ApiError, ◌∷◌, time_add, leb_ℤ, if_cases,
  Result, ok, err, is_not_found, is_some, not, arith, before, Option-cases, Bool-cases,
}
use per_user_container_opera.Api.Workspace.{
  Workspace, Phase, pending, starting, ready, idle, failed, unset, StartFailure, crashloop,
  startup_timeout, waiting_rwop_conflict,
}
use per_user_container_opera.Api.App.{PerUserApp}
use per_user_container_opera.Api.Objects.{Deployment, Pod}
use per_user_container_opera.Cluster.{Client, World, read, send_status_patch, answer-cases}
use per_user_container_opera.Admission.Queue.{try_admit}
use per_user_container_opera.Admission.Backoff.{failed_start, record_start_failure}
use per_user_container_opera.Reclaimer.Deletion.{claim_key}
use per_user_container_opera.Reconciler.Storage.{Library, Outcome, reconcile_pvc}
use per_user_container_opera.Reconciler.Storage.Kept.{core, reconcile_pvc-core}
use per_user_container_opera.Reconciler.Children.{
  Renderer, ensure_deployment, ensure_workspace_network_policies, create_children,
}
use per_user_container_opera.Reconciler.Phases.{
  unless_refused, admit, workspace_pods, judge, check_start, settle, await_pods, check_ready,
  check_idle, transition_to_ready, after_record, fail_starting, reconcile_failed, start_children,
  start, reconcile_pending, guarded, check_deadline, check_pod, check_deployment,
  reconcile_starting, scale_to_zero, reconcile_ready, reconcile_idle, reconcile_phase,
}
use per_user_container_opera.Reconciler.Step.{
  after-state, Requeue, Intervals, or_default, Step, done, after, call, first_waiting_reason,
  is_not_true, any_not_true, is_empty, is_rwop_conflict_pending, in_phase, waiting_for, woken,
  first_pod, readied, starting_from, is_overdue, is_over,
}

-- What the server has answered, at some state, about the children of a workspace of an app.
abbrev pub IsDeployed : (c : Client) → PerUserApp → Workspace → Result Deployment → Type 0
IsDeployed c app ws r = (s : c.Server) × ((c.get_deployment (claim_key app ws) s).0 ≡ r)

abbrev pub HasPods : (c : Client) → PerUserApp → Workspace → List Pod → Type 0
HasPods c app ws pods =
    (s : c.Server) × ((c.list_pods ws.key.namespace app.key.name ws.spec.user_key s).0 ≡ ok pods)

-- Why a start is given up: the first pod of the workspace waits in a crash loop, the deadline has
-- come, or there is no Deployment and the failure has been recorded already.
pub data GaveUp (c : Client) (app : PerUserApp) (now : Time) (ws : Workspace) : Type 0 where
  crashed :
      (pod : Pod) (pods : List Pod)
      → HasPods c app ws (pod ∷ pods)
      → first_waiting_reason pod.waiting ≡ codes "CrashLoopBackOff"
      → GaveUp c app now ws
  timed_out :
      (deadline : Time)
      → ws.status.start_deadline ≡ some deadline
      → deadline ≤ℤ now
      → GaveUp c app now ws
  orphaned :
      (e : ApiError)
      → IsDeployed c app ws (err e)
      → is_not_found e ≡ true
      → is_some ws.status.backoff_until ≡ true
      → GaveUp c app now ws

-- The rows of the phase table at a time, from the workspace before a reconcile to the one after it:
-- admitted by the Admitter, to start with a deadline; with a replica that is ready, to Ready; given
-- up, to Failed; with the backoff over, to wait again; with a wake asked for, to wait again; and
-- scaled down with no pod left, to Idle.
pub data Transition (c : Client) (lib : Library) (admitter_now : Time) (app : PerUserApp)
    (now : Time) (ws v : Workspace) : Type 0 where
  stays : v.status.phase ≡ ws.status.phase → Transition c lib admitter_now app now ws v
  starts :
      ws.status.phase ≡ pending
      → (w : World c.Server)
      → (try_admit c lib.find_status_condition admitter_now ws app w).0 ≡ ok true
      → v.status.phase ≡ starting
      → v.status.start_deadline ≡ some (time_add now app.spec.lifecycle.startup_timeout)
      → Transition c lib admitter_now app now ws v
  becomes_ready :
      ws.status.phase ≡ starting
      → (dep : Deployment) → IsDeployed c app ws (ok dep)
      → pos 1 ≤ℤ dep.ready_replicas
      → v.status.phase ≡ ready
      → v.status.start_deadline ≡ none
      → v.status.consecutive_failures ≡ pos 0
      → Transition c lib admitter_now app now ws v
  fails :
      ws.status.phase ≡ starting
      → GaveUp c app now ws
      → v.status.phase ≡ failed
      → Transition c lib admitter_now app now ws v
  retries :
      (until : Time)
      → ws.status.phase ≡ failed
      → ws.status.backoff_until ≡ some until
      → until <ℤ now
      → v.status.phase ≡ pending
      → v.status.backoff_until ≡ none
      → Transition c lib admitter_now app now ws v
  wakes :
      (ws.status.phase ≡ ready) ⊎ (ws.status.phase ≡ idle)
      → is_some ws.status.wake_requested_at ≡ true
      → v.status.phase ≡ pending
      → v.status.wake_requested_at ≡ none
      → v.status.scaled_down ≡ false
      → Transition c lib admitter_now app now ws v
  sleeps :
      ws.status.phase ≡ ready
      → ws.status.scaled_down ≡ true
      → HasPods c app ws []
      → v.status.phase ≡ idle
      → Transition c lib admitter_now app now ws v

over_since :
    (o : Option Time) (now : Time)
    → is_over o now ≡ true
    → (until : Time) × (o ≡ some until) × (until <ℤ now)
over_since none now e = absurd (ground (arith, e))
over_since (some until) now e = (until, refl, ground (arith, e))

overdue_since :
    (o : Option Time) (now : Time)
    → is_overdue o now ≡ true
    → (deadline : Time) × (o ≡ some deadline) × (deadline ≤ℤ now)
overdue_since none now e = absurd (ground (arith, e))
overdue_since (some deadline) now e = (deadline, refl, ground (arith, e))

-- The first pod of a list that the server has answered.
abbrev pub IsSeen : (c : Client) → PerUserApp → Workspace → Option Pod → Type 0
IsSeen c app ws none = Unit
IsSeen c app ws (some pod) = (pods : List Pod) × HasPods c app ws (pod ∷ pods)

module _ (c : Client) (lib : Library) (renderer : Renderer) (intervals : Intervals)
    (admitter_now : Time) (now : Time) (app : PerUserApp) (ws : Workspace) where
  abbrev Next : Workspace → Type 0
  Next = Transition c lib admitter_now app now ws

  abbrev phase_kept : (v : Workspace) → core v ≡ core ws → v.status.phase ≡ ws.status.phase
  phase_kept v e = ap (λ x. x.0) e

  guarded-Next :
      (rest : Step c.Server Requeue)
      → ((v : Workspace) (w : World c.Server) → core v ≡ core ws → Next (rest v w).1)
      → (w : World c.Server)
      → Next (guarded c lib renderer intervals admitter_now now app rest ws w).1
  unfolding guarded unless_refused
  guarded-Next rest h w =
      let r = reconcile_pvc c lib app true ws w in
      let kept : core r.1 ≡ core ws = reconcile_pvc-core c lib app true ws w in
      let same : Next r.1 = stays (phase_kept r.1 kept) in
      after-state Next (unless_refused c lib renderer intervals admitter_now now app rest) r
        (λ refused w'.
          if_cases (λ (o : Outcome c.Server Requeue). Next o.1) refused (ok none, r.1, w') _
            (λ t. same)
            (λ t.
              after-state Next (λ _. rest)
                (call r.1 (ensure_workspace_network_policies c renderer app r.1 w'))
                (λ _ w''. h r.1 w'' kept) same))
        same

  pub fail-phase :
      (reason : StartFailure) (v : Workspace) (w : World c.Server)
      → (fail_starting c lib renderer intervals admitter_now now app reason v w).1.status.phase
        ≡ failed
  unfolding fail_starting after_record record_start_failure send_status_patch
  fail-phase reason v w =
      let failing = in_phase failed v in
      elim (answer-cases
        (c.patch_status failing (failed_start admitter_now failing app) w.server)) [
          | inl (u, s, e) ↦ rw (e, fail_starting) refl
          | inr (d, s, e) ↦ rw (e, fail_starting) refl
        ]

  check_deadline-Next :
      (v : Workspace) (w : World c.Server)
      → ws.status.phase ≡ starting
      → core v ≡ core ws
      → Next (check_deadline c lib renderer intervals admitter_now now app v w).1
  unfolding check_deadline
  check_deadline-Next v w e k =
      if_cases (λ (o : Outcome c.Server Requeue). Next o.1) (is_overdue v.status.start_deadline now)
        _ _
        (λ t.
          let (deadline, d, l) =
            overdue_since ws.status.start_deadline now (ap (λ x. is_overdue x.4 now) (sym k) ∙ t) in
          fails e (timed_out deadline d l) (fail-phase startup_timeout v w))
        (λ t. stays (phase_kept v k))

  check_pod-Next :
      (pod : Option Pod) (v : Workspace) (w : World c.Server)
      → ws.status.phase ≡ starting
      → core v ≡ core ws
      → IsSeen c app ws pod
      → Next (check_pod c lib renderer intervals admitter_now now app pod v w).1
  unfolding check_pod
  check_pod-Next none v w e k seen = check_deadline-Next v w e k
  check_pod-Next (some pod) v w e k seen =
      let P : Outcome c.Server Requeue → Type 0 = λ o. Next o.1 in
      let reason = first_waiting_reason pod.waiting in
      if_cases P (text_eq reason (codes "CrashLoopBackOff")) _ _
        (λ t.
          fails e (crashed pod seen.0 seen.1 ((text_eq_iff reason (codes "CrashLoopBackOff")).0 t))
            (fail-phase crashloop v w))
        (λ t.
          if_cases P (not (text_eq reason [])) _ _
            (λ q. check_deadline-Next (waiting_for reason v) w e k)
            (λ q.
              if_cases P (is_rwop_conflict_pending pod) _ _
                (λ z. check_deadline-Next (waiting_for waiting_rwop_conflict v) w e k)
                (λ z. check_deadline-Next v w e k)))

  check_deployment-Next :
      (pod : Option Pod) (v : Workspace) (r : Result Deployment × World c.Server)
      → ws.status.phase ≡ starting
      → core v ≡ core ws
      → IsSeen c app ws pod
      → IsDeployed c app ws r.0
      → Next (check_deployment c lib renderer intervals admitter_now now app pod v r).1
  unfolding check_deployment transition_to_ready
  check_deployment-Next pod v (ok dep, w) e k seen d =
      if_cases (λ (o : Outcome c.Server Requeue). Next o.1) (leb_ℤ (pos 1) dep.ready_replicas) _ _
        (λ t. becomes_ready e dep d (ground (arith, t)) refl refl refl)
        (λ t. check_pod-Next pod v w e k seen)
  check_deployment-Next pod v (err x, w) e k seen d =
      let P : Outcome c.Server Requeue → Type 0 = λ o. Next o.1 in
      if_cases P (is_not_found x) _ _
        (λ t.
          if_cases P (is_some v.status.backoff_until) _ _
            (λ b. fails e (orphaned x d t (ap (λ y. is_some y.3) (sym k) ∙ b)) refl)
            (λ b. check_pod-Next pod v w e k seen))
        (λ t. stays (phase_kept v k))
