-- ===== src/Reconciler/Phases/Progress.antt =====
-- The progress of a start: what a reconcile makes of a Starting workspace
-- (internal/controller/workspace_controller.go, reconcileStarting).
use per_user_container_opera.Common.{
  ◌≡◌, refl, sym, ap, ◌∙◌, true, false, Option, none, some, [], text_eq, codes, Time, Duration, pos,
  ◌<ℤ◌, leb_ℤ, if_cases, Result, ok, err, ApiError, is_not_found, is_some, not, arith, second, ◌*◌,
}
use per_user_container_opera.Api.Workspace.{
  Workspace, ready, failed, crashloop, startup_timeout, waiting_rwop_conflict,
}
use per_user_container_opera.Api.App.{PerUserApp}
use per_user_container_opera.Api.Objects.{Deployment, Pod}
use per_user_container_opera.Cluster.{Client, World, read}
use per_user_container_opera.Reclaimer.Deletion.{claim_key}
use per_user_container_opera.Reconciler.Storage.{Library, Outcome, reconcile_pvc}
use per_user_container_opera.Reconciler.Storage.Kept.{reconcile_pvc-core}
use per_user_container_opera.Reconciler.Children.{Renderer, ensure_workspace_network_policies}
use per_user_container_opera.Reconciler.Phases.{
  unless_refused, workspace_pods, judge, check_start, transition_to_ready, guarded, check_deadline,
  check_pod, check_deployment, reconcile_starting,
}
use per_user_container_opera.Reconciler.Phases.Transitions.{fail-phase}
use per_user_container_opera.Reconciler.Step.{
  Requeue, Intervals, or_default, Step, after, call, first_waiting_reason, is_rwop_conflict_pending,
  waiting_for, first_pod, is_overdue,
}

-- What a property of outcomes needs of a call that goes on.
after-outcome :
    {S A B : Type 0} (Q : Outcome S B → Type 0) (f : A → Step S B) (r : Outcome S A)
    → ((e : ApiError) (v : Workspace) (w : World S) → Q (err e, v, w))
    → ((a : A) (v : Workspace) (w : World S) → r ≡ (ok a, v, w) → Q (f a v w))
    → Q (after f r)
after-outcome Q f (ok a, v, w) h k = k a v w refl
after-outcome Q f (err e, v, w) h k = h e v w

or_default-positive : (interval : Duration) → pos 0 <ℤ or_default interval (pos (2 * second))
or_default-positive interval = ground arith

module _ (c : Client) (lib : Library) (renderer : Renderer) (intervals : Intervals)
    (admitter_now : Time) (now : Time) (app : PerUserApp) (ws : Workspace)
    (w0 : World c.Server) where
  -- How a reconcile of a Starting workspace ends: the start is over, one way or the other; the
  -- storage refuses, or a call was not answered; or it is not yet overdue and asks to be looked at
  -- again after a while.
  pub data Progress (o : Outcome c.Server Requeue) : Type 0 where
    succeeds : o.1.status.phase ≡ ready → Progress o
    gives_up : o.1.status.phase ≡ failed → Progress o
    storage_refused : (reconcile_pvc c lib app true ws w0).0 ≡ ok true → Progress o
    unanswered : (e : ApiError) → o.0 ≡ err e → Progress o
    polls :
        (d : Duration)
        → is_overdue ws.status.start_deadline now ≡ false
        → o.0 ≡ ok (some d)
        → pos 0 <ℤ d
        → Progress o

  abbrev KeepsDeadline : Workspace → Type 0
  KeepsDeadline v = v.status.start_deadline ≡ ws.status.start_deadline

  check_deadline-Progress :
      (v : Workspace) (w : World c.Server)
      → KeepsDeadline v
      → Progress (check_deadline c lib renderer intervals admitter_now now app v w)
  unfolding check_deadline
  check_deadline-Progress v w k =
      if_cases Progress (is_overdue v.status.start_deadline now) _ _
        (λ t.
          gives_up
            (fail-phase c lib renderer intervals admitter_now now app ws startup_timeout v w))
        (λ t.
          polls (or_default intervals.starting_poll (pos (2 * second)))
            (ap (λ d. is_overdue d now) (sym k) ∙ t) refl
            (or_default-positive intervals.starting_poll))

  check_pod-Progress :
      (pod : Option Pod) (v : Workspace) (w : World c.Server)
      → KeepsDeadline v
      → Progress (check_pod c lib renderer intervals admitter_now now app pod v w)
  unfolding check_pod
  check_pod-Progress none v w k = check_deadline-Progress v w k
  check_pod-Progress (some pod) v w k =
      let reason = first_waiting_reason pod.waiting in
      if_cases Progress (text_eq reason (codes "CrashLoopBackOff")) _ _
        (λ t. gives_up (fail-phase c lib renderer intervals admitter_now now app ws crashloop v w))
        (λ t.
          if_cases Progress (not (text_eq reason [])) _ _
            (λ q. check_deadline-Progress (waiting_for reason v) w k)
            (λ q.
              if_cases Progress (is_rwop_conflict_pending pod) _ _
                (λ z. check_deadline-Progress (waiting_for waiting_rwop_conflict v) w k)
                (λ z. check_deadline-Progress v w k)))

  check_deployment-Progress :
      (pod : Option Pod) (v : Workspace) (r : Result Deployment × World c.Server)
      → KeepsDeadline v
      → Progress (check_deployment c lib renderer intervals admitter_now now app pod v r)
  unfolding check_deployment transition_to_ready
  check_deployment-Progress pod v (ok dep, w) k =
      if_cases Progress (leb_ℤ (pos 1) dep.ready_replicas) _ _ (λ t. succeeds refl)
        (λ t. check_pod-Progress pod v w k)
  check_deployment-Progress pod v (err x, w) k =
      if_cases Progress (is_not_found x) _ _
        (λ t.
          if_cases Progress (is_some v.status.backoff_until) _ _ (λ b. gives_up refl)
            (λ b. check_pod-Progress pod v w k))
        (λ t. unanswered x refl)

  check_start-Progress :
      (v : Workspace) (w : World c.Server)
      → KeepsDeadline v
      → Progress (check_start c lib renderer intervals admitter_now now app v w)
  unfolding check_start judge workspace_pods
  check_start-Progress v w k =
      after-outcome Progress (judge c lib renderer intervals admitter_now now app)
        (workspace_pods c lib renderer intervals admitter_now now app v w)
        (λ e u w'. unanswered e refl)
        (λ pods u w' q.
          check_deployment-Progress (first_pod pods) u
            (read (c.get_deployment (claim_key app u)) w')
            (ap (λ o. o.1.status.start_deadline) (sym q) ∙ k))

  -- A start does not get lost: a reconcile of a Starting workspace leaves it ready or failed, unless
  -- its storage is refused or a call is not answered, or it is before its deadline, when it asks to
  -- be run again after a positive time. In particular a start whose deadline has passed ends at the
  -- next reconcile whose calls are answered, if its storage is not refused.
  pub reconcile_starting-Progress :
      Progress (reconcile_starting c lib renderer intervals admitter_now now app ws w0)
  unfolding reconcile_starting guarded unless_refused
  reconcile_starting-Progress =
      after-outcome Progress
        (unless_refused c lib renderer intervals admitter_now now app
          (check_start c lib renderer intervals admitter_now now app))
        (reconcile_pvc c lib app true ws w0) (λ e v w. unanswered e refl)
        (λ refused v w q.
          if_cases Progress refused _ _ (λ t. storage_refused (ap (λ o. o.0) q ∙ ap ok t))
            (λ t.
              after-outcome Progress
                (λ _. check_start c lib renderer intervals admitter_now now app)
                (call v (ensure_workspace_network_policies c renderer app v w))
                (λ e u w'. unanswered e refl)
                (λ a u w' h. check_start-Progress u w' (
                  ap (λ o. o.1.status.start_deadline) (sym h)
                  ∙ ap (λ o. o.1.status.start_deadline) (sym q)
                  ∙ ap (λ x. x.4) (reconcile_pvc-core c lib app true ws w0)))))
