-- ===== src/Reconciler/Phases/Transitions/Table.antt =====
-- Each phase beside the phase table (internal/controller/workspace_controller.go).
use per_user_container_opera.Common.{
  ◌≡◌, refl, sym, ap, ◌∙◌, inl, inr, true, none, Time, pos, if_cases, ok, err, is_some, List, [],
  ◌∷◌, Bool, false, Result,
}
use per_user_container_opera.Api.Workspace.{
  Workspace, Phase, pending, starting, ready, idle, failed, unset,
}
use per_user_container_opera.Api.App.{PerUserApp}
use per_user_container_opera.Api.Objects.{Pod}
use per_user_container_opera.Cluster.{Client, World, read, answer-cases}
use per_user_container_opera.Admission.Queue.{try_admit}
use per_user_container_opera.Reclaimer.Deletion.{claim_key}
use per_user_container_opera.Reconciler.Storage.{Library, Outcome, reconcile_pvc}
use per_user_container_opera.Reconciler.Storage.Kept.{core, reconcile_pvc-core}
use per_user_container_opera.Reconciler.Children.{Renderer, ensure_deployment, create_children}
use per_user_container_opera.Reconciler.Phases.{
  admit, workspace_pods, judge, check_start, settle, await_pods, check_ready, check_idle,
  reconcile_failed, start_children, start, reconcile_pending, reconcile_starting, scale_to_zero,
  reconcile_ready, reconcile_idle, reconcile_phase,
}
use per_user_container_opera.Reconciler.Phases.Transitions.{
  Transition, starts, stays, wakes, sleeps, retries, over_since, phase_kept, guarded-Next,
  check_deployment-Next, HasPods, IsSeen, IsDeployed,
}
use per_user_container_opera.Reconciler.Step.{
  after-state, after, Requeue, Intervals, done, call, woken, first_pod, starting_from, is_over,
}

module _ (c : Client) (lib : Library) (renderer : Renderer) (intervals : Intervals)
    (admitter_now : Time) (now : Time) (app : PerUserApp) (ws : Workspace) where
  abbrev Next : Workspace → Type 0
  Next = Transition c lib admitter_now app now ws

  abbrev user_pods : Workspace → c.Server → Result (List Pod) × c.Server
  user_pods v = c.list_pods v.key.namespace app.key.name v.spec.user_key

  -- What is answered about a workspace that differs only in what a pass over the storage changes.
  pods_of :
      (v : Workspace) (w : World c.Server) (pods : List Pod) (s : c.Server)
      → core v ≡ core ws
      → user_pods v w.server ≡ (ok pods, s)
      → HasPods c app ws pods
  pods_of v w pods s k e = (
    w.server,
    ap (λ x. (user_pods (record v { key = x.5; spec = x.6 }) w.server).0) (sym k) ∙ ap (λ r. r.0) e,
  )

  first-IsSeen : (pods : List Pod) → HasPods c app ws pods → IsSeen c app ws (first_pod pods)
  first-IsSeen [] h = tt
  first-IsSeen (pod ∷ pods) h = (pods, h)

  deployment_of :
      (v : Workspace) (w : World c.Server)
      → core v ≡ core ws
      → IsDeployed c app ws (read (c.get_deployment (claim_key app v)) w).0
  deployment_of v w k = (
    w.server,
    ap (λ x. (c.get_deployment (claim_key app (record v { key = x.5; spec = x.6 })) w.server).0)
        (sym k),
  )

  check_start-Next :
      (v : Workspace) (w : World c.Server)
      → ws.status.phase ≡ starting
      → core v ≡ core ws
      → Next (check_start c lib renderer intervals admitter_now now app v w).1
  unfolding check_start judge workspace_pods
  check_start-Next v w e k = elim (answer-cases (user_pods v w.server)) [
    | inl (pods, s, q) ↦ rw q (
        check_deployment-Next c lib renderer intervals admitter_now now app ws (first_pod pods) v
          (read (c.get_deployment (claim_key app v)) (record w { server = s })) e k
          (first-IsSeen pods (pods_of v w pods s k q))
          (deployment_of v (record w { server = s }) k))
    | inr (d, s, q) ↦ rw q (stays (phase_kept c lib renderer intervals admitter_now now app ws v k))
  ]

  await_pods-Next :
      (v : Workspace) (w : World c.Server)
      → ws.status.phase ≡ ready
      → ws.status.scaled_down ≡ true
      → core v ≡ core ws
      → Next (await_pods c lib renderer intervals admitter_now now app tt v w).1
  unfolding await_pods settle workspace_pods
  await_pods-Next v w e d k = elim (answer-cases (user_pods v w.server)) [
    | inl (pods, t, q) ↦ rw q (settled pods t q)
    | inr (x, t, q) ↦ rw q (stays (phase_kept c lib renderer intervals admitter_now now app ws v k))
  ]
    where
      settled :
          (pods : List Pod) (t : c.Server)
          → user_pods v w.server ≡ (ok pods, t)
          → Next
              (settle c lib renderer intervals admitter_now now pods v (record w { server = t })).1
      settled [] t q = sleeps e d (pods_of v w [] t k q) refl
      settled (pod ∷ pods) t q =
          stays (phase_kept c lib renderer intervals admitter_now now app ws v k)

  check_ready-Next :
      (v : Workspace) (w : World c.Server)
      → ws.status.phase ≡ ready
      → core v ≡ core ws
      → Next (check_ready c lib renderer intervals admitter_now now app v w).1
  unfolding check_ready scale_to_zero
  check_ready-Next v w e k =
      let P : Outcome c.Server Requeue → Type 0 = λ o. Next o.1 in
      if_cases P (is_some v.status.wake_requested_at) (ok none, woken v, w) _
        (λ t. wakes (inl e) (ap (λ x. is_some x.2) (sym k) ∙ t) refl refl refl)
        (λ t.
          if_cases P v.status.scaled_down
            (scale_to_zero c lib renderer intervals admitter_now now app v w) (ok none, v, w)
            (λ d.
              after-state Next (await_pods c lib renderer intervals admitter_now now app)
                (call v (ensure_deployment c renderer app v (pos 0) w))
                (λ _ w'. await_pods-Next v w' e (ap (λ x. x.1) (sym k) ∙ d) k)
                (stays (phase_kept c lib renderer intervals admitter_now now app ws v k)))
            (λ d. stays (phase_kept c lib renderer intervals admitter_now now app ws v k)))

  check_idle-Next :
      (v : Workspace) (w : World c.Server)
      → ws.status.phase ≡ idle
      → core v ≡ core ws
      → Next (check_idle c lib renderer intervals admitter_now now v w).1
  unfolding check_idle
  check_idle-Next v w e k =
      if_cases Next (is_some v.status.wake_requested_at) (woken v) v
        (λ t. wakes (inr e) (ap (λ x. is_some x.2) (sym k) ∙ t) refl refl refl)
        (λ t. stays (phase_kept c lib renderer intervals admitter_now now app ws v k))

  failed-Next :
      (w : World c.Server)
      → ws.status.phase ≡ failed
      → Next (reconcile_failed c lib renderer intervals admitter_now now ws w).1
  unfolding reconcile_failed
  failed-Next w e =
      if_cases Next (is_over ws.status.backoff_until now) _ ws
        (λ t.
          let (until, n, h) = over_since ws.status.backoff_until now t in
          retries until e n h refl refl)
        (λ t. stays refl)

  start-Next :
      (w : World c.Server)
      → ws.status.phase ≡ pending
      → (u : World c.Server)
      → (try_admit c lib.find_status_condition admitter_now ws app u).0 ≡ ok true
      → Next (start c lib renderer intervals admitter_now now app ws w).1
  unfolding start start_children
  start-Next w e u a =
      let r = reconcile_pvc c lib app true (starting_from app now ws) w in
      let kept : core r.1 ≡ core (starting_from app now ws) =
        reconcile_pvc-core c lib app true (starting_from app now ws) w in
      let started : Next r.1 = starts e u a (ap (λ x. x.0) kept) (ap (λ x. x.4) kept) in
      after-state Next (start_children c lib renderer intervals admitter_now now app) r
        (λ refused w'.
          if_cases (λ (o : Outcome c.Server Requeue). Next o.1) refused _ _ (λ t. stays (sym e))
            (λ t.
              after-state Next (λ _. done none) (call r.1 (create_children c renderer app r.1 w'))
                (λ _ w''. started) started))
        started

  pending-Next :
      (w : World c.Server)
      → ws.status.phase ≡ pending
      → Next (reconcile_pending c lib renderer intervals admitter_now now app ws w).1
  unfolding reconcile_pending admit
  pending-Next w e = by_admission (try_admit c lib.find_status_condition admitter_now ws app w) refl
    where
      by_admission :
          (r : Result Bool × World c.Server)
          → try_admit c lib.find_status_condition admitter_now ws app w ≡ r
          → Next (after (admit c lib renderer intervals admitter_now now app) (call ws r)).1
      by_admission (ok true, w') q = start-Next w' e w (ap (λ r. r.0) q)
      by_admission (ok false, w') q = stays refl
      by_admission (err x, w') q = stays refl

  in_phase-Next :
      (phase : Phase) (w : World c.Server)
      → ws.status.phase ≡ phase
      → Next (reconcile_phase c lib renderer intervals admitter_now now app phase ws w).1
  unfolding reconcile_phase reconcile_starting reconcile_ready reconcile_idle
  in_phase-Next unset w e = stays refl
  in_phase-Next pending w e = pending-Next w e
  in_phase-Next starting w e =
      guarded-Next c lib renderer intervals admitter_now now app ws
        (check_start c lib renderer intervals admitter_now now app)
        (λ v w' k. check_start-Next v w' e k) w
  in_phase-Next ready w e =
      guarded-Next c lib renderer intervals admitter_now now app ws
        (check_ready c lib renderer intervals admitter_now now app)
        (λ v w' k. check_ready-Next v w' e k) w
  in_phase-Next idle w e =
      guarded-Next c lib renderer intervals admitter_now now app ws
        (check_idle c lib renderer intervals admitter_now now) (λ v w' k. check_idle-Next v w' e k)
        w
  in_phase-Next failed w e = failed-Next w e

  -- Whatever the server answers and wherever a reconcile fails, the phase that it leaves in the
  -- workspace follows the phase table: each change of phase is a row of `Transition`, with the
  -- condition for it and the fields that go with it.
  pub reconcile_phase-Transition :
      (w : World c.Server)
      → Transition c lib admitter_now app now ws
          (reconcile_phase c lib renderer intervals admitter_now now app ws.status.phase ws w).1
  reconcile_phase-Transition w = in_phase-Next ws.status.phase w refl
