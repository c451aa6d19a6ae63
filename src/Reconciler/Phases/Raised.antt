-- ===== src/Reconciler/Phases/Raised.antt =====
-- The largest observed size over the phases (internal/controller/workspace_controller.go).
use per_user_container_opera.Common.{
  inl, inr, Bool, true, Option, none, some, List, [], ◌∷◌, text_eq, codes, Time, pos, leb_ℤ,
  if_cases, All, Result, ok, err, is_not_found, is_some, not,
}
use per_user_container_opera.Api.Workspace.{
  Workspace, Phase, unset, pending, starting, ready, idle, failed, StartFailure, crashloop,
  startup_timeout, waiting_rwop_conflict,
}
use per_user_container_opera.Api.App.{PerUserApp}
use per_user_container_opera.Api.Objects.{Deployment, Pod}
use per_user_container_opera.Cluster.{
  Client, World, read, send_status_patch, answer-cases, Request, requests,
}
use per_user_container_opera.Admission.Queue.{try_admit}
use per_user_container_opera.Admission.Backoff.{failed_start, record_start_failure}
use per_user_container_opera.Reclaimer.Deletion.{claim_key}
use per_user_container_opera.Reconciler.Storage.{Library, Outcome, reconcile_pvc}
use per_user_container_opera.Reconciler.Storage.Laws.{Grows, Grows-refl, reconcile_pvc-Safe}
use per_user_container_opera.Reconciler.Children.{
  Renderer, ensure_deployment, ensure_workspace_network_policies, create_children,
}
use per_user_container_opera.Reconciler.Phases.{
  admit, after_record, await_pods, check_deadline, check_deployment, check_idle, check_pod,
  check_ready, check_start, fail_starting, guarded, judge, reconcile_failed, reconcile_idle,
  reconcile_pending, reconcile_phase, reconcile_ready, reconcile_starting, scale_to_zero, settle,
  start, start_children, transition_to_ready, unless_refused, workspace_pods,
}
use per_user_container_opera.Reconciler.Step.{
  Requeue, Intervals, Step, done, after-state, call, first_waiting_reason, is_empty,
  is_rwop_conflict_pending, in_phase, waiting_for, woken, first_pod, starting_from, is_overdue,
  is_over,
}

module _ (c : Client) (lib : Library) (renderer : Renderer) (intervals : Intervals)
    (admitter_now : Time) (now : Time) (app : PerUserApp) (ws : Workspace) where
  abbrev Raised : {A : Type 0} → Outcome c.Server A → Type 0
  Raised o = Grows ws o.1

  -- A call that lowers no size.
  abbrev Raises : Step c.Server Requeue → Type 0
  Raises m = (v : Workspace) (w : World c.Server) → Grows ws v → Raised (m v w)

  storage-Grows : (allow : Bool) (w : World c.Server) → Raised (reconcile_pvc c lib app allow ws w)
  storage-Grows allow w =
      (reconcile_pvc-Safe c lib app ws (λ q. Unit {0}) (λ q s. tt) allow w (any_log w)).0
    where
      all_log : (l : List Request) → All (λ q. Unit {0}) l
      all_log [] = tt
      all_log (q ∷ l) = (tt, all_log l)

      any_log : (w : World c.Server) → All (λ q. Unit {0}) (requests w.log)
      any_log w = all_log (requests w.log)

  guarded-Grows :
      (rest : Step c.Server Requeue)
      → Raises rest
      → (w : World c.Server)
      → Raised (guarded c lib renderer intervals admitter_now now app rest ws w)
  unfolding guarded unless_refused
  guarded-Grows rest k w =
      let r = reconcile_pvc c lib app true ws w in
      let g : Raised r = storage-Grows true w in
      after-state (Grows ws) (unless_refused c lib renderer intervals admitter_now now app rest) r
        (λ refused w'.
          if_cases Raised refused (ok none, r.1, w') _ (λ t. g)
            (λ t.
              after-state (Grows ws) (λ _. rest)
                (call r.1 (ensure_workspace_network_policies c renderer app r.1 w'))
                (λ _ w''. k r.1 w'' g) g))
        g

  fail-Grows :
      (reason : StartFailure)
      → Raises (fail_starting c lib renderer intervals admitter_now now app reason)
  unfolding fail_starting after_record record_start_failure send_status_patch
  fail-Grows reason v w g =
      let failing = in_phase failed v in
      elim (answer-cases
        (c.patch_status failing (failed_start admitter_now failing app) w.server)) [
          | inl (u, s, e) ↦ rw (e, fail_starting) g
          | inr (d, s, e) ↦ rw (e, fail_starting) g
        ]

  deadline-Grows : Raises (check_deadline c lib renderer intervals admitter_now now app)
  unfolding check_deadline
  deadline-Grows v w g =
      if_cases Raised (is_overdue v.status.start_deadline now) _ _
        (λ t. fail-Grows startup_timeout v w g) (λ t. g)

  pod-Grows :
      (pod : Option Pod) → Raises (check_pod c lib renderer intervals admitter_now now app pod)
  unfolding check_pod
  pod-Grows none v w g = deadline-Grows v w g
  pod-Grows (some pod) v w g =
      let reason = first_waiting_reason pod.waiting in
      if_cases Raised (text_eq reason (codes "CrashLoopBackOff")) _ _
        (λ t. fail-Grows crashloop v w g)
        (λ t.
          if_cases Raised (not (text_eq reason [])) _ _
            (λ q. deadline-Grows (waiting_for reason v) w g)
            (λ q.
              if_cases Raised (is_rwop_conflict_pending pod) _ _
                (λ z. deadline-Grows (waiting_for waiting_rwop_conflict v) w g)
                (λ z. deadline-Grows v w g)))

  deployment-Grows :
      (pod : Option Pod) (v : Workspace) (r : Result Deployment × World c.Server)
      → Grows ws v
      → Raised (check_deployment c lib renderer intervals admitter_now now app pod v r)
  unfolding check_deployment transition_to_ready
  deployment-Grows pod v (ok dep, w) g =
      if_cases Raised (leb_ℤ (pos 1) dep.ready_replicas) _ _ (λ t. g) (λ t. pod-Grows pod v w g)
  deployment-Grows pod v (err x, w) g =
      if_cases Raised (is_not_found x) _ (err x, v, w)
        (λ t.
          if_cases Raised (is_some v.status.backoff_until) _ _ (λ b. g) (λ b. pod-Grows pod v w g))
        (λ t. g)

  check_start-Grows : Raises (check_start c lib renderer intervals admitter_now now app)
  unfolding check_start judge workspace_pods
  check_start-Grows v w g =
      after-state (Grows ws) (judge c lib renderer intervals admitter_now now app)
        (workspace_pods c lib renderer intervals admitter_now now app v w)
        (λ pods w'.
          deployment-Grows (first_pod pods) v (read (c.get_deployment (claim_key app v)) w') g)
        g

  await_pods-Grows : Raises (await_pods c lib renderer intervals admitter_now now app tt)
  unfolding await_pods settle workspace_pods
  await_pods-Grows v w g =
      after-state (Grows ws) (settle c lib renderer intervals admitter_now now)
        (workspace_pods c lib renderer intervals admitter_now now app v w)
        (λ pods w'.
          if_cases Raised (is_empty pods) (ok none, in_phase idle v, w') _ (λ y. g) (λ y. g))
        g

  check_ready-Grows : Raises (check_ready c lib renderer intervals admitter_now now app)
  unfolding check_ready scale_to_zero
  check_ready-Grows v w g =
      if_cases Raised (is_some v.status.wake_requested_at) (ok none, woken v, w) _ (λ t. g)
        (λ t.
          if_cases Raised v.status.scaled_down
            (scale_to_zero c lib renderer intervals admitter_now now app v w) (ok none, v, w)
            (λ d.
              after-state (Grows ws) (await_pods c lib renderer intervals admitter_now now app)
                (call v (ensure_deployment c renderer app v (pos 0) w))
                (λ _ w'. await_pods-Grows v w' g) g)
            (λ d. g))

  check_idle-Grows : Raises (check_idle c lib renderer intervals admitter_now now)
  unfolding check_idle
  check_idle-Grows v w g =
      if_cases (Grows ws) (is_some v.status.wake_requested_at) (woken v) v (λ t. g) (λ t. g)

module _ (c : Client) (lib : Library) (renderer : Renderer) (intervals : Intervals)
    (admitter_now : Time) (now : Time) (app : PerUserApp) where
  start-Grows :
      (ws : Workspace) (w : World c.Server)
      → Grows ws (start c lib renderer intervals admitter_now now app ws w).1
  unfolding start start_children
  start-Grows ws w =
      let r = reconcile_pvc c lib app true (starting_from app now ws) w in
      let g : Grows ws r.1 =
        storage-Grows c lib renderer intervals admitter_now now app (starting_from app now ws) true
          w in
      after-state (Grows ws) (start_children c lib renderer intervals admitter_now now app) r
        (λ refused w'.
          if_cases (λ (o : Outcome c.Server Requeue). Grows ws o.1) refused _ _ (λ t. g)
            (λ t.
              after-state (Grows ws) (λ _. done none)
                (call r.1 (create_children c renderer app r.1 w')) (λ _ w''. g) g))
        g

  pending-Grows :
      (ws : Workspace) (w : World c.Server)
      → Grows ws (reconcile_pending c lib renderer intervals admitter_now now app ws w).1
  unfolding reconcile_pending admit
  pending-Grows ws w =
      after-state (Grows ws) (admit c lib renderer intervals admitter_now now app)
        (call ws (try_admit c lib.find_status_condition admitter_now ws app w))
        (λ admitted w'.
          if_cases (λ (o : Outcome c.Server Requeue). Grows ws o.1) admitted _ _
            (λ t. start-Grows ws w') (λ t. Grows-refl ws))
        (Grows-refl ws)

  -- Whatever the phase, the server's answers and the failures, a reconcile keeps or raises the
  -- largest observed size of its workspace.
  pub reconcile_phase-Grows :
      (phase : Phase) (ws : Workspace) (w : World c.Server)
      → Grows ws (reconcile_phase c lib renderer intervals admitter_now now app phase ws w).1
  unfolding reconcile_phase reconcile_starting reconcile_ready reconcile_idle reconcile_failed
  reconcile_phase-Grows unset ws w = Grows-refl ws
  reconcile_phase-Grows pending ws w = pending-Grows ws w
  reconcile_phase-Grows starting ws w =
      guarded-Grows c lib renderer intervals admitter_now now app ws
        (check_start c lib renderer intervals admitter_now now app)
        (check_start-Grows c lib renderer intervals admitter_now now app ws) w
  reconcile_phase-Grows ready ws w =
      guarded-Grows c lib renderer intervals admitter_now now app ws
        (check_ready c lib renderer intervals admitter_now now app)
        (check_ready-Grows c lib renderer intervals admitter_now now app ws) w
  reconcile_phase-Grows idle ws w =
      guarded-Grows c lib renderer intervals admitter_now now app ws
        (check_idle c lib renderer intervals admitter_now now)
        (check_idle-Grows c lib renderer intervals admitter_now now app ws) w
  reconcile_phase-Grows failed ws w =
      if_cases (Grows ws) (is_over ws.status.backoff_until now) _ ws (λ t. Grows-refl ws)
        (λ t. Grows-refl ws)
