-- ===== src/Reconciler/Writes/Phased.antt =====
-- What the phases write (internal/controller/workspace_controller.go).
use per_user_container_opera.Common.{
  refl, inl, inr, Bool, true, false, not, Option, none, some, [], text_eq, codes, Time, pos, leb_ℤ,
  if_cases, Result, ok, err, is_not_found, is_some, All, Option-cases,
}
use per_user_container_opera.Api.Workspace.{
  Workspace, Phase, unset, pending, starting, ready, idle, failed, StartFailure, crashloop,
  startup_timeout, waiting_rwop_conflict, cond_migration_complete,
}
use per_user_container_opera.Api.App.{PerUserApp}
use per_user_container_opera.Api.Objects.{Deployment, Pod}
use per_user_container_opera.Cluster.{
  Client, World, M, read, send_status_patch, requests, Request, answer-cases, pure,
}
use per_user_container_opera.Cluster.Keeps.{Keeps, Keeps-bind, Keeps-read}
use per_user_container_opera.Admission.Queue.{try_admit, is_migrating, in_backoff, has_turn}
use per_user_container_opera.Admission.Backoff.{failed_start, record_start_failure}
use per_user_container_opera.Reclaimer.Deletion.{claim_key}
use per_user_container_opera.Reconciler.Storage.{Library, Outcome, reconcile_pvc}
use per_user_container_opera.Reconciler.Storage.Laws.{reconcile_pvc-Safe}
use per_user_container_opera.Reconciler.Children.{
  Renderer, ensure_deployment, ensure_workspace_network_policies, create_children,
}
use per_user_container_opera.Reconciler.Step.{
  Requeue, Intervals, Step, done, after, call, first_waiting_reason, is_empty,
  is_rwop_conflict_pending, in_phase, waiting_for, woken, first_pod, starting_from, is_overdue,
}
use per_user_container_opera.Reconciler.Phases.{
  transition_to_ready, after_record, fail_starting, reconcile_failed, start_children, start, admit,
  reconcile_pending, unless_refused, guarded, check_deadline, check_pod, check_deployment,
  workspace_pods, judge, check_start, reconcile_starting, settle, await_pods, scale_to_zero,
  check_ready, reconcile_ready, check_idle, reconcile_idle, reconcile_phase,
}
use per_user_container_opera.Reconciler.Writes.{
  counts, stores, Writes, ensure_deployment-Fine, policies-Fine, create_children-Fine,
}

module _ {S A B : Type 0} (P : Request → Type 0) where
  after-log :
      (f : A → Step S B) (r : Outcome S A)
      → ((a : A) (v : Workspace) (w : World S)
          → All P (requests w.log)
          → All P (requests (f a v w).2.log))
      → All P (requests r.2.log)
      → All P (requests (after f r).2.log)
  after-log f (ok a, v, w) h k = h a v w k
  after-log f (err e, v, w) h k = k

module _ (c : Client) (lib : Library) (renderer : Renderer) (intervals : Intervals)
    (admitter_now : Time) (now : Time) (app : PerUserApp) where
  abbrev P : Request → Type 0
  P = Writes c lib renderer admitter_now now

  -- A call that keeps to the contract.
  abbrev KeepsTo : {A : Type 0} → Step c.Server A → Type 0
  KeepsTo m =
      (ws : Workspace) (w : World c.Server)
      → All P (requests w.log)
      → All P (requests (m ws w).2.log)

  abbrev Kept : {A : Type 0} → Outcome c.Server A → Type 0
  Kept r = All P (requests r.2.log)

  storage-Fine : (allow : Bool) → KeepsTo (reconcile_pvc c lib app allow)
  storage-Fine allow ws w h =
      (reconcile_pvc-Safe c lib app ws P (λ q s. stores app ws q s) allow w h).1

  fail-Fine :
      (reason : StartFailure)
      → KeepsTo (fail_starting c lib renderer intervals admitter_now now app reason)
  unfolding fail_starting after_record record_start_failure send_status_patch
  fail-Fine reason ws w h =
      let failing = in_phase failed ws in
      elim (answer-cases
        (c.patch_status failing (failed_start admitter_now failing app) w.server)) [
          | inl (u, s, e) ↦ rw (e, fail_starting) (counts app failing refl, h)
          | inr (d, s, e) ↦ rw (e, fail_starting) (counts app failing refl, h)
        ]

  guarded-Fine :
      (rest : Step c.Server Requeue)
      → KeepsTo rest
      → KeepsTo (guarded c lib renderer intervals admitter_now now app rest)
  unfolding guarded unless_refused
  guarded-Fine rest k ws w h =
      after-log P (unless_refused c lib renderer intervals admitter_now now app rest)
        (reconcile_pvc c lib app true ws w)
        (λ refused v w' l.
          if_cases Kept refused (ok none, v, w') _ (λ t. l)
            (λ t.
              after-log P (λ _. rest)
                (call v (ensure_workspace_network_policies c renderer app v w')) (λ _. k)
                (policies-Fine c lib renderer admitter_now now app v w' l)))
        (storage-Fine true ws w h)

  deadline-Fine : KeepsTo (check_deadline c lib renderer intervals admitter_now now app)
  unfolding check_deadline
  deadline-Fine ws w h =
      if_cases Kept (is_overdue ws.status.start_deadline now) _ _
        (λ t. fail-Fine startup_timeout ws w h) (λ t. h)

  pod-Fine :
      (pod : Option Pod) → KeepsTo (check_pod c lib renderer intervals admitter_now now app pod)
  unfolding check_pod
  pod-Fine none ws w h = deadline-Fine ws w h
  pod-Fine (some pod) ws w h =
      let reason = first_waiting_reason pod.waiting in
      if_cases Kept (text_eq reason (codes "CrashLoopBackOff")) _ _
        (λ t. fail-Fine crashloop ws w h)
        (λ t.
          if_cases Kept (not (text_eq reason [])) _ _
            (λ q. deadline-Fine (waiting_for reason ws) w h)
            (λ q.
              if_cases Kept (is_rwop_conflict_pending pod) _ _
                (λ z. deadline-Fine (waiting_for waiting_rwop_conflict ws) w h)
                (λ z. deadline-Fine ws w h)))

  ready-log :
      (pod : Option Pod)
      → KeepsTo (transition_to_ready c lib renderer intervals admitter_now now app pod)
  unfolding transition_to_ready
  ready-log pod ws w h = elim (Option-cases ws.status.start_deadline) [
    | inl e ↦ rw (e, transition_to_ready) h
    | inr (d, e) ↦ rw (e, transition_to_ready) h
  ]

  deployment-Fine :
      (pod : Option Pod) (ws : Workspace) (r : Result Deployment × World c.Server)
      → All P (requests r.1.log)
      → Kept (check_deployment c lib renderer intervals admitter_now now app pod ws r)
  unfolding check_deployment
  deployment-Fine pod ws (ok dep, w) h =
      if_cases Kept (leb_ℤ (pos 1) dep.ready_replicas) _ _ (λ t. ready-log pod ws w h)
        (λ t. pod-Fine pod ws w h)
  deployment-Fine pod ws (err x, w) h =
      if_cases Kept (is_not_found x) _ (err x, ws, w)
        (λ t.
          if_cases Kept (is_some ws.status.backoff_until) _ _ (λ b. h) (λ b. pod-Fine pod ws w h))
        (λ t. h)

  check_start-Fine : KeepsTo (check_start c lib renderer intervals admitter_now now app)
  unfolding check_start judge workspace_pods
  check_start-Fine ws w h =
      after-log P (judge c lib renderer intervals admitter_now now app)
        (workspace_pods c lib renderer intervals admitter_now now app ws w)
        (λ pods v w' k.
          deployment-Fine (first_pod pods) v (read (c.get_deployment (claim_key app v)) w') k)
        h

  await_pods-Fine : KeepsTo (await_pods c lib renderer intervals admitter_now now app tt)
  unfolding await_pods settle workspace_pods
  await_pods-Fine ws w h =
      after-log P (settle c lib renderer intervals admitter_now now)
        (workspace_pods c lib renderer intervals admitter_now now app ws w)
        (λ pods v w' k.
          if_cases Kept (is_empty pods) (ok none, in_phase idle v, w') _ (λ y. k) (λ y. k))
        h

  check_ready-Fine : KeepsTo (check_ready c lib renderer intervals admitter_now now app)
  unfolding check_ready scale_to_zero
  check_ready-Fine ws w h =
      if_cases Kept (is_some ws.status.wake_requested_at) (ok none, woken ws, w) _ (λ t. h)
        (λ t.
          if_cases Kept ws.status.scaled_down
            (scale_to_zero c lib renderer intervals admitter_now now app ws w) (ok none, ws, w)
            (λ d.
              after-log P (await_pods c lib renderer intervals admitter_now now app)
                (call ws (ensure_deployment c renderer app ws (pos 0) w)) (λ _. await_pods-Fine)
                (ensure_deployment-Fine c lib renderer admitter_now now app ws (pos 0) w h))
            (λ d. h))

  try_admit-Fine :
      (ws : Workspace) → Keeps P (try_admit c lib.find_status_condition admitter_now ws app)
  unfolding try_admit
  try_admit-Fine ws =
      let Q : M c.Server Bool → Type 0 = λ m. Keeps P m in
      if_cases Q (is_migrating (lib.find_status_condition app.conditions cond_migration_complete))
        (pure false) _ (λ _ w h. h)
        (λ _.
          if_cases Q (in_backoff ws.status.backoff_until admitter_now) (pure false) _ (λ _ w h. h)
            (λ _.
              Keeps-bind P (read (c.list_workspaces ws.key.namespace app.key.name))
                (λ l. pure (has_turn ws app l))
                (Keeps-read P (c.list_workspaces ws.key.namespace app.key.name)) (λ l w h. h)))

  start-Fine : KeepsTo (start c lib renderer intervals admitter_now now app)
  unfolding start start_children
  start-Fine ws w h =
      after-log P (start_children c lib renderer intervals admitter_now now app)
        (reconcile_pvc c lib app true (starting_from app now ws) w)
        (λ refused v w' k.
          if_cases Kept refused _ _ (λ t. k)
            (λ t.
              after-log P (λ _. done none) (call v (create_children c renderer app v w'))
                (λ _ u w'' l. l) (create_children-Fine c lib renderer admitter_now now app v w' k)))
        (storage-Fine true (starting_from app now ws) w h)

  pending-Fine : KeepsTo (reconcile_pending c lib renderer intervals admitter_now now app)
  unfolding reconcile_pending admit
  pending-Fine ws w h =
      after-log P (admit c lib renderer intervals admitter_now now app)
        (call ws (try_admit c lib.find_status_condition admitter_now ws app w))
        (λ admitted v w' k.
          if_cases Kept admitted (start c lib renderer intervals admitter_now now app v w') _
            (λ t. start-Fine v w' k) (λ t. k))
        (try_admit-Fine ws w h)

  -- Whatever the phase and the server's answers, the writes keep to the contract.
  pub phase-Fine :
      (phase : Phase)
      → KeepsTo (reconcile_phase c lib renderer intervals admitter_now now app phase)
  unfolding reconcile_phase reconcile_starting reconcile_ready reconcile_idle reconcile_failed
      check_idle
  phase-Fine unset ws w h = h
  phase-Fine pending ws w h = pending-Fine ws w h
  phase-Fine starting ws w h =
      guarded-Fine (check_start c lib renderer intervals admitter_now now app) check_start-Fine ws w
        h
  phase-Fine ready ws w h =
      guarded-Fine (check_ready c lib renderer intervals admitter_now now app) check_ready-Fine ws w
        h
  phase-Fine idle ws w h =
      guarded-Fine (check_idle c lib renderer intervals admitter_now now) (λ v z k. k) ws w h
  phase-Fine failed ws w h = h
