-- ===== src/Reconciler/Writes/Whole.antt =====
-- What a whole reconcile writes (internal/controller/workspace_controller.go, Reconcile).
use per_user_container_opera.Common.{
  ◌≡◌, refl, length, true, false, not, none, List, [], ◌∷◌, map, Text, Time, if_cases, Result, ok,
  err, is_some, All, arith,
}
use per_user_container_opera.Api.Workspace.{
  Workspace, Key, phase_eq, phase_eq_eq, unset, pending, starting, ready, idle, failed,
}
use per_user_container_opera.Api.App.{PerUserApp}
use per_user_container_opera.Cluster.{
  Client, World, M, read, send, emit, send_status_patch, requests, Request, update_workspace, ◌>>=◌,
  pure, Metric, measured, user_info, workspaces_by_phase, claims_total, user_info_deleted,
}
use per_user_container_opera.Cluster.Keeps.{Keeps, Keeps-bind, Keeps-read, Keeps-send}
use per_user_container_opera.Reconciler.Storage.{Library}
use per_user_container_opera.Reconciler.Children.{Renderer}
use per_user_container_opera.Reconciler.Step.{Requeue, Intervals, in_phase}
use per_user_container_opera.Reconciler.Phases.{reconcile_phase}
use per_user_container_opera.Reconciler.Phases.Raised.{reconcile_phase-Grows}
use per_user_container_opera.Reconciler.Storage.Laws.{Grows}
use per_user_container_opera.Reconciler.Phases.Transitions.{Transition}
use per_user_container_opera.Reconciler.Phases.Transitions.Table.{reconcile_phase-Transition}
use per_user_container_opera.Reconciler.Reconcile.{
  has_finalizer, with_finalizer, without_finalizer, count_phase, count_metrics, let_go,
  reconcile_delete, refresh_gauges, patch_status_if_changed, combine, count_error, finish, persist,
  run_phase, count_phases, user_display, reconcile_app, find_app, reconcile_workspace,
  reconcile_found, reconcile,
}
use per_user_container_opera.Reconciler.Writes.{
  IsReconcileWrite, registers, releases, enters, moves, Writes,
}
use per_user_container_opera.Reconciler.Writes.Phased.{phase-Fine}

count_metrics-requests :
    {S : Type 0} (l : List Metric) (w : World S) → requests (count_metrics l w).log ≡ requests w.log
count_metrics-requests [] w = refl
count_metrics-requests (m ∷ l) w = count_metrics-requests l (record w { log = measured m ∷ w.log })

module _ (c : Client) (lib : Library) (renderer : Renderer) (intervals : Intervals)
    (admitter_now : Time) (now : Time) where
  abbrev P : Request → Type 0
  P = Writes c lib renderer admitter_now now

  abbrev Held : {A : Type 0} → Result A × World c.Server → Type 0
  Held r = All P (requests r.1.log)

  gauges-Writes : (ns app : Text) → Keeps P (refresh_gauges c ns app)
  unfolding refresh_gauges count_phases
  gauges-Writes ns app =
      Keeps-bind P (read (c.list_workspaces ns app)) _ (Keeps-read P (c.list_workspaces ns app))
        (λ l.
          Keeps-bind P (count_phases c ns app l)
            (λ _.
              read (c.list_claims ns app)
              >>= (λ k. emit (measured (claims_total ns app (length k)))))
            (λ w h. rw (count_metrics-requests (metrics l) w) h)
            (λ _.
              Keeps-bind P (read (c.list_claims ns app)) _ (Keeps-read P (c.list_claims ns app))
                (λ k w h. h)))
    where
      metrics : List Workspace → List Metric
      metrics l =
          map (λ phase. workspaces_by_phase ns app phase (count_phase l phase))
            (pending ∷ starting ∷ ready ∷ idle ∷ failed ∷ [])

  status-Writes :
      (app : PerUserApp) (base ws : Workspace)
      → Transition c lib admitter_now app now base ws
      → Grows base ws
      → Keeps P (patch_status_if_changed c lib renderer intervals admitter_now now base ws)
  unfolding patch_status_if_changed send_status_patch
  status-Writes app base ws t g =
      if_cases (λ (m : M c.Server (Unit {0})). Keeps P m) (lib.same_status base.status ws.status)
        (pure tt) (send_status_patch c base ws >>= (λ _. pure tt)) (λ _ w h. h)
        (λ _.
          Keeps-bind P (send_status_patch c base ws) (λ _. pure tt)
            (λ w h. (moves app base ws t g, h)) (λ _ w h. h))

  count_error-Writes :
      (ws : Workspace) (app : PerUserApp) (r : Result Requeue × World c.Server)
      → Held r
      → Held (count_error c lib renderer intervals admitter_now now ws app r)
  unfolding count_error
  count_error-Writes ws app (ok a, w) h = h
  count_error-Writes ws app (err e, w) h = h

  finish-Writes :
      (ws : Workspace) (app : PerUserApp) (r : Result Requeue)
      (s : Result (Unit {0}) × World c.Server)
      → Held s
      → Held (finish c lib renderer intervals admitter_now now ws app r s)
  unfolding finish
  finish-Writes ws app r (p, w) h =
      count_error-Writes ws app (combine c lib renderer intervals admitter_now now r p, w) h

  phase-Writes :
      (ws : Workspace) (app : PerUserApp)
      → Keeps P (run_phase c lib renderer intervals admitter_now now ws app)
  unfolding run_phase persist
  phase-Writes ws app w h =
      let o = reconcile_phase c lib renderer intervals admitter_now now app ws.status.phase ws w in
      finish-Writes o.1 app o.0
        (patch_status_if_changed c lib renderer intervals admitter_now now ws o.1 o.2)
        (status-Writes app ws o.1
          (reconcile_phase-Transition c lib renderer intervals admitter_now now app ws w)
          (reconcile_phase-Grows c lib renderer intervals admitter_now now app ws.status.phase ws w)
          o.2 (phase-Fine c lib renderer intervals admitter_now now app ws.status.phase ws w h))

  app-Writes :
      (ws : Workspace) (app : PerUserApp)
      → Keeps P (reconcile_app c lib renderer intervals admitter_now now ws app)
  unfolding reconcile_app
  app-Writes ws app =
      let gauges = refresh_gauges c ws.key.namespace app.key.name in
      let run = run_phase c lib renderer intervals admitter_now now ws app in
      Keeps-bind P
        (emit
          (measured (user_info ws.key.namespace app.key.name ws.spec.user_key (user_display ws))))
        (λ _. gauges >>= (λ _. run)) (λ w h. h)
        (λ _.
          Keeps-bind P gauges (λ _. run) (gauges-Writes ws.key.namespace app.key.name)
            (λ _. phase-Writes ws app))

  find_app-Writes :
      (ws : Workspace) (r : Result PerUserApp × World c.Server)
      → Held r
      → Held (find_app c lib renderer intervals admitter_now now ws r)
  unfolding find_app
  find_app-Writes ws (ok app, w) h = app-Writes ws app w h
  find_app-Writes ws (err e, w) h = h

  let_go-Writes : (ws : Workspace) → is_some ws.deletion_timestamp ≡ true → Keeps P (let_go c ws)
  unfolding let_go
  let_go-Writes ws d =
      let release = send c (update_workspace (without_finalizer ws)) in
      Keeps-bind P
        (emit (
          measured (
            user_info_deleted ws.key.namespace ws.spec.app_ref ws.spec.user_key (user_display ws))))
        (λ _. release >>= (λ _. pure none)) (λ w h. h)
        (λ _.
          Keeps-bind P release (λ _. pure none)
            (Keeps-send c P (update_workspace (without_finalizer ws)) (releases ws d)) (λ _ w h. h))

  delete-Writes :
      (ws : Workspace) → is_some ws.deletion_timestamp ≡ true → Keeps P (reconcile_delete c ws)
  unfolding reconcile_delete
  delete-Writes ws d =
      if_cases (λ (m : M c.Server Requeue). Keeps P m) (has_finalizer ws) (let_go c ws) (pure none)
        (λ _. let_go-Writes ws d) (λ _ w h. h)

  register-Writes :
      (ws : Workspace)
      → is_some ws.deletion_timestamp ≡ false
      → has_finalizer ws ≡ false
      → Keeps P (send c (update_workspace (with_finalizer ws)))
  register-Writes ws d f = Keeps-send c P (update_workspace (with_finalizer ws)) (registers ws d f)

  enter-Writes :
      (ws : Workspace)
      → ws.status.phase ≡ unset
      → Keeps P (send_status_patch c ws (in_phase pending ws))
  unfolding send_status_patch
  enter-Writes ws e w h = (enters ws e, h)

  workspace-Writes :
      (ws : Workspace) → Keeps P (reconcile_workspace c lib renderer intervals admitter_now now ws)
  unfolding reconcile_workspace
  workspace-Writes ws w h =
      if_cases Held (is_some ws.deletion_timestamp) (reconcile_delete c ws w) _
        (λ d. delete-Writes ws d w h)
        (λ d.
          if_cases Held (not (has_finalizer ws)) _ _
            (λ f.
              Keeps-bind P (send c (update_workspace (with_finalizer ws))) (λ _. pure none)
                (register-Writes ws d (ground (arith, f))) (λ _ v k. k) w h)
            (λ f.
              if_cases Held (phase_eq ws.status.phase unset) _ _
                (λ e.
                  Keeps-bind P (send_status_patch c ws (in_phase pending ws)) (λ _. pure none)
                    (enter-Writes ws (phase_eq_eq ws.status.phase unset e)) (λ _ v k. k) w h)
                (λ e.
                  find_app-Writes ws
                    (read
                      (c.get_app (record { namespace = ws.key.namespace; name = ws.spec.app_ref }))
                      w)
                    h)))

  found-Writes :
      (r : Result Workspace × World c.Server)
      → Held r
      → Held (reconcile_found c lib renderer intervals admitter_now now r)
  unfolding reconcile_found
  found-Writes (ok ws, w) h = workspace-Writes ws w h
  found-Writes (err e, w) h = h

  -- A whole reconcile, from an empty log and whatever the server answers, makes only the writes of
  -- `IsReconcileWrite`: each status that it writes is a first one, counts a failed start, or follows
  -- the phase table without lowering the largest observed size, and it deletes nothing, no claim and
  -- no workspace.
  pub reconcile-IsReconcileWrite :
      (key : Key) (s : c.Server)
      → All (IsReconcileWrite c lib renderer admitter_now now) (
          requests
            (reconcile c lib renderer intervals admitter_now now key
              (record { server = s; log = [] })).1.log)
  unfolding reconcile
  reconcile-IsReconcileWrite key s =
      found-Writes (read (c.get_workspace key) (record { server = s; log = [] })) tt
