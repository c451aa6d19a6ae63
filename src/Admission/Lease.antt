-- ===== src/Admission/Lease.antt =====
-- internal/controller/admission.go: `OnLeaseAcquired`. `clock k` is the time that is read when the
-- workspace `k` is handled.
use per_user_container_opera.Common.{
  ◌≡◌, inl, inr, none, some, List, [], ◌∷◌, Time, Duration, time_add, if◌then◌else◌, Result, ok,
  err, is_not_found, All, Bool-cases, Option-cases,
}
use per_user_container_opera.Api.Workspace.{
  Workspace, Key, starting, phase_eq, phase_eq_eq, start_orphaned,
}
use per_user_container_opera.Api.App.{PerUserApp}
use per_user_container_opera.Api.Objects.{Deployment}
use per_user_container_opera.Cluster.{
  Client, World, M, ◌>>=◌, ◌>>◌, pure, read, send_status_patch, Request, patch_workspace_status,
  requests,
}
use per_user_container_opera.Cluster.Keeps.{Keeps, Keeps-bind, Keeps-read}
use per_user_container_opera.Identity.UserKey.{child_name}
use per_user_container_opera.Admission.Backoff.{failed_start, record_start_failure}

-- A workspace with its start deadline put off.
abbrev pub extended : Duration → Workspace → Time → Workspace
extended leaderless ws deadline = record ws {
  status = record (ws.status) { start_deadline = some (time_add deadline leaderless) };
}

module _ (c : Client) (clock : Key → Time) (leaderless : Duration) where
  -- The three outcomes of looking for the Deployment.
  handle_deployment :
      Workspace
      → PerUserApp
      → Result Deployment × World c.Server
      → Result (Unit {0}) × World c.Server
  handle_deployment ws app (ok dep, w) = elim ws.status.start_deadline [
    | none ↦ (ok tt, w)
    | some deadline ↦
        (send_status_patch c ws (extended leaderless ws deadline) >>= (λ _. pure tt)) w
  ]
  handle_deployment ws app (err e, w) =
      if is_not_found e
      then (record_start_failure c (clock ws.key) ws app start_orphaned >>= (λ _. pure tt)) w
      else (err e, w)

  handle_app : Workspace → Result PerUserApp × World c.Server → Result (Unit {0}) × World c.Server
  unfolding handle_deployment
  handle_app ws (ok app, w) = handle_deployment ws app (
      read
        (c.get_deployment (record {
          namespace = ws.key.namespace;
          name = child_name app.key.name ws.spec.user_key;
        }))
        w)
  handle_app ws (err e, w) = (if is_not_found e then ok tt else err e, w)

  -- One round of the loop.
  handle_workspace : Workspace → M c.Server (Unit {0})
  unfolding handle_app
  handle_workspace ws w =
      if phase_eq ws.status.phase starting
      then handle_app ws
          (read (c.get_app (record { namespace = ws.key.namespace; name = ws.spec.app_ref })) w)
      else (ok tt, w)

  -- The loop, which stops at the first error.
  handle_all : List Workspace → M c.Server (Unit {0})
  unfolding handle_workspace
  handle_all [] = pure tt
  handle_all (ws ∷ rest) = do handle_workspace ws; handle_all rest

  pub on_lease_acquired : M c.Server (Unit {0})
  unfolding handle_all
  on_lease_acquired = do workspaces ← read c.list_all_workspaces; handle_all workspaces

  -- The writes of a takeover: a Starting workspace is either counted as failed, or has its
  -- deadline put off by the time without a leader.
  pub data IsTakeover : Request → Type 0 where
    fails :
        (now : Time) (ws : Workspace) (app : PerUserApp)
        → ws.status.phase ≡ starting
        → IsTakeover (patch_workspace_status ws (failed_start now ws app))
    extends :
        (ws : Workspace) (deadline : Time)
        → ws.status.phase ≡ starting
        → ws.status.start_deadline ≡ some deadline
        → IsTakeover (patch_workspace_status ws (extended leaderless ws deadline))

  abbrev Sound : World c.Server → Type 0
  Sound w = All IsTakeover (requests w.log)

  patch-Sound :
      (base ws : Workspace)
      → IsTakeover (patch_workspace_status base ws)
      → Keeps IsTakeover (send_status_patch c base ws)
  unfolding send_status_patch
  patch-Sound base ws p w h = (p, h)

  record-Sound :
      (ws : Workspace) (app : PerUserApp)
      → ws.status.phase ≡ starting
      → Keeps IsTakeover (record_start_failure c (clock ws.key) ws app start_orphaned)
  unfolding record_start_failure
  record-Sound ws app e =
      Keeps-bind IsTakeover (send_status_patch c ws (failed_start (clock ws.key) ws app)) _
        (patch-Sound ws (failed_start (clock ws.key) ws app) (fails (clock ws.key) ws app e))
        (λ reply w h. h)

  handle_deployment-Sound :
      (ws : Workspace) (app : PerUserApp) (r : Result Deployment × World c.Server)
      → ws.status.phase ≡ starting
      → Sound r.1
      → Sound (handle_deployment ws app r).1
  unfolding handle_deployment
  handle_deployment-Sound ws app (ok dep, w) e h = elim (Option-cases ws.status.start_deadline) [
    | inl d ↦ rw (d, handle_deployment) h
    | inr (deadline, d) ↦
        rw (d, handle_deployment)
          (Keeps-bind IsTakeover (send_status_patch c ws (extended leaderless ws deadline))
            (λ _. pure tt)
            (patch-Sound ws (extended leaderless ws deadline) (extends ws deadline e d))
            (λ _ v k. k) w h)
  ]
  handle_deployment-Sound ws app (err x, w) e h = elim (Bool-cases (is_not_found x)) [
    | inl n ↦ rw n (
        Keeps-bind IsTakeover (record_start_failure c (clock ws.key) ws app start_orphaned)
          (λ _. pure tt) (record-Sound ws app e) (λ _ v k. k) w h)
    | inr n ↦ rw n h
  ]

  handle_app-Sound :
      (ws : Workspace) (r : Result PerUserApp × World c.Server)
      → ws.status.phase ≡ starting
      → Sound r.1
      → Sound (handle_app ws r).1
  unfolding handle_app
  handle_app-Sound ws (ok app, w) e h =
      handle_deployment-Sound ws app
        (read
          (c.get_deployment (record {
            namespace = ws.key.namespace;
            name = child_name app.key.name ws.spec.user_key;
          }))
          w)
        e h
  handle_app-Sound ws (err x, w) e h = h

  handle_workspace-Sound : (ws : Workspace) → Keeps IsTakeover (handle_workspace ws)
  unfolding handle_workspace
  handle_workspace-Sound ws w h = elim (Bool-cases (phase_eq ws.status.phase starting)) [
    | inl e ↦ rw e (
        handle_app-Sound ws
          (read (c.get_app (record { namespace = ws.key.namespace; name = ws.spec.app_ref })) w)
          (phase_eq_eq ws.status.phase starting e) h)
    | inr e ↦ rw e h
  ]

  handle_all-Sound : (l : List Workspace) → Keeps IsTakeover (handle_all l)
  unfolding handle_all
  handle_all-Sound [] = λ w h. h
  handle_all-Sound (ws ∷ l) =
      Keeps-bind IsTakeover (handle_workspace ws) (λ _. handle_all l) (handle_workspace-Sound ws)
        (λ _. handle_all-Sound l)

  -- A new leader, from an empty log and whatever the server answers, writes only to workspaces
  -- that are Starting, and each write either counts a failed start and arms the backoff, or puts
  -- the deadline that was there off by the time without a leader. It never writes a phase.
  pub on_lease_acquired-IsTakeover :
      (s : c.Server)
      → All IsTakeover (requests (on_lease_acquired (record { server = s; log = [] })).1.log)
  unfolding on_lease_acquired
  on_lease_acquired-IsTakeover s =
      Keeps-bind IsTakeover (read c.list_all_workspaces) handle_all
        (Keeps-read IsTakeover c.list_all_workspaces) handle_all-Sound
        (record { server = s; log = [] }) tt
