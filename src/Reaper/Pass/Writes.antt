-- ===== src/Reaper/Pass/Writes.antt =====
-- What a reap pass writes (internal/controller/reaper.go, ScaleDown and Reap).
use per_user_container_opera.Common.{
  ◌≡◌, ◌≢◌, refl, ◌∙◌, sym, ap, subst, inl, inr, Bool, true, false, Option, none, some, List, [],
  ◌∷◌, map, Text, Time, if◌then◌else◌, arith, All, All-push_all, All-map-keep-members, All-members,
  keep, push_all, Result, ok, err, ApiError, conflict, is_conflict, Bool-cases,
}
use per_user_container_opera.Api.Workspace.{Workspace, Key}
use per_user_container_opera.Api.App.{PerUserApp}
use per_user_container_opera.Cluster.{
  Client, World, send, requests, Request, update_workspace_status, Event, answer-cases, sent,
  measured, config_warning, workspace_reaped, start_failed, reaper_completed,
}
use mathlib.Core.List.{Memᴰ}
use per_user_container_opera.Cluster.Listed.{IsListedApp, IsListing}
use per_user_container_opera.Reaper.Predicate.{is_reapable}
use per_user_container_opera.Reaper.Pass.{
  scaled, scale_down, advance, is_early, reap_workspace, reap_workspaces, reap_app, reap_one,
  reap_apps, reap, as_result, Passes,
}

-- The one write that the Reaper makes for a workspace.
abbrev pub scaling : Workspace → Request
scaling ws = update_workspace_status (scaled ws)

-- The write of the Reaper in a pass that begins at a state of the server: it sets `scaled_down`, and
-- nothing else, of a workspace as it was listed for an app that the pass listed, and the workspace
-- is idle for that app at the time of the pass.
pub record IsScaleDown (c : Client) (begin : c.Server) (now : Time) (q : Request) : Type 0 where
  pub app : PerUserApp
  pub app_listed : IsListedApp c begin app
  pub workspaces : List Workspace
  pub listing : IsListing c app workspaces
  pub ws : Workspace
  pub listed : Memᴰ ws workspaces
  pub idle : is_reapable ws app now ≡ true
  pub request : q ≡ scaling ws

-- The first failure in a log that is no conflict.
abbrev pub first_failure : List Event → Option ApiError
first_failure [] = none
first_failure (sent q none ∷ l) = first_failure l
first_failure (sent q (some e) ∷ l) = elim (first_failure l) [
  | some d ↦ some d
  | none ↦ if is_conflict e then none else some e
]
first_failure (workspace_reaped ns app r ∷ l) = first_failure l
first_failure (start_failed ns app r ∷ l) = first_failure l
first_failure (reaper_completed k t ∷ l) = first_failure l
first_failure (measured m ∷ l) = first_failure l
first_failure (config_warning k t ∷ l) = first_failure l

module _ (c : Client) where
  reap_workspace-requests :
      (app : PerUserApp) (now : Time) (ws : Workspace) (s : Option ApiError × World c.Server)
      → requests (reap_workspace c app now ws s).1.log
        ≡ (if is_reapable ws app now then scaling ws ∷ requests s.1.log else requests s.1.log)
  unfolding reap_workspace scale_down send
  reap_workspace-requests app now ws (first, w) = ground arith

  reap_workspaces-requests :
      (app : PerUserApp) (now : Time) (l : List Workspace) (s : Option ApiError × World c.Server)
      → requests (reap_workspaces c app now l s).1.log
        ≡ push_all (map scaling (keep (λ ws. is_reapable ws app now) l)) (requests s.1.log)
  unfolding reap_workspaces
  reap_workspaces-requests app now [] s = refl
  reap_workspaces-requests app now (ws ∷ l) s =
      reap_workspaces-requests app now l (reap_workspace c app now ws s)
      ∙ ap (push_all (map scaling (keep (λ v. is_reapable v app now) l)))
          (reap_workspace-requests app now ws s)
      ∙ split (is_reapable ws app now)
    where
      split :
          (b : Bool)
          → push_all
              (map scaling (keep (λ v. is_reapable v app now) l))
              (if b then scaling ws ∷ requests s.1.log else requests s.1.log)
            ≡ push_all
                (map scaling (
                  if b
                  then ws ∷ keep (λ v. is_reapable v app now) l
                  else keep (λ v. is_reapable v app now) l))
                (requests s.1.log)
      split true = refl
      split false = refl

  -- If the list of the app's workspaces is answered, `reapApp` writes the scale-down of each
  -- workspace that is reapable, in the order of the list, whatever the outcome of the writes
  -- before it, and writes nothing else.
  reap_app-requests :
      (app : PerUserApp) (now : Time) (w : World c.Server) (l : List Workspace) (s : c.Server)
      → c.list_workspaces app.key.namespace app.key.name w.server ≡ (ok l, s)
      → requests (reap_app c app now w).1.log
        ≡ push_all (map scaling (keep (λ ws. is_reapable ws app now) l)) (requests w.log)
  unfolding reap_app
  reap_app-requests app now w l s e =
      rw (e, reap_app) (reap_workspaces-requests app now l (none, record w { server = s }))

  reap_workspace-failure :
      (app : PerUserApp) (now : Time) (ws : Workspace) (s : Option ApiError × World c.Server)
      → s.0 ≡ first_failure s.1.log
      → (reap_workspace c app now ws s).0 ≡ first_failure (reap_workspace c app now ws s).1.log
  unfolding reap_workspace scale_down send
  reap_workspace-failure app now ws (first, w) h = ground arith

  reap_workspaces-failure :
      (app : PerUserApp) (now : Time) (l : List Workspace) (s : Option ApiError × World c.Server)
      → s.0 ≡ first_failure s.1.log
      → (reap_workspaces c app now l s).0 ≡ first_failure (reap_workspaces c app now l s).1.log
  unfolding reap_workspaces
  reap_workspaces-failure app now [] s h = h
  reap_workspaces-failure app now (ws ∷ l) s h =
      reap_workspaces-failure app now l (reap_workspace c app now ws s)
        (reap_workspace-failure app now ws s h)

  -- From an empty log, `reapApp` returns the first failure among its writes that is no conflict,
  -- and succeeds if there is none: a lost race is not an error, and a failed write does not hide
  -- behind later ones that succeed.
  reap_app-failure :
      (app : PerUserApp) (now : Time) (s t : c.Server) (l : List Workspace)
      → c.list_workspaces app.key.namespace app.key.name s ≡ (ok l, t)
      → (reap_app c app now (record { server = s; log = [] })).0
        ≡ as_result (first_failure (reap_app c app now (record { server = s; log = [] })).1.log)
  unfolding reap_app
  reap_app-failure app now s t l e =
      rw (e, reap_app)
        (ap as_result
          (reap_workspaces-failure app now l (none, record { server = t; log = [] }) refl))

  reap_app-IsScaleDown :
      (begin : c.Server) (app : PerUserApp) (now : Time) (w : World c.Server)
      → IsListedApp c begin app
      → All (IsScaleDown c begin now) (requests w.log)
      → All (IsScaleDown c begin now) (requests (reap_app c app now w).1.log)
  unfolding reap_app
  reap_app-IsScaleDown begin app now w a h =
      let P = IsScaleDown c begin now in
      elim (answer-cases (c.list_workspaces app.key.namespace app.key.name w.server)) [
        | inl (l, s, e) ↦ subst (All P) (sym (reap_app-requests app now w l s e)) (
            All-push_all P (map scaling (keep (λ ws. is_reapable ws app now) l)) _
              (All-map-keep-members P scaling (λ ws. is_reapable ws app now) l
                (λ ws m t. record {
                  app = app;
                  app_listed = a;
                  workspaces = l;
                  listing = (w.server, s, e);
                  ws = ws;
                  listed = m;
                  idle = t;
                  request = refl;
                }))
              h)
        | inr (d, s, e) ↦ rw (e, reap_app) h
      ]

  advance-requests :
      (app : PerUserApp) (now : Time) (p : Passes) (f : Option ApiError)
      (r : Result (Unit {0}) × World c.Server)
      → requests (advance c app now p f r).2.log ≡ requests r.1.log
  advance-requests app now p f (ok u, w) = refl
  advance-requests app now p f (err e, w) = refl

  reap_one-IsScaleDown :
      (begin : c.Server) (now : Time) (app : PerUserApp) (p : Passes) (f : Option ApiError)
      (w : World c.Server)
      → IsListedApp c begin app
      → All (IsScaleDown c begin now) (requests w.log)
      → All (IsScaleDown c begin now) (requests (reap_one c now app (p, f, w)).2.log)
  unfolding reap_one
  reap_one-IsScaleDown begin now app p f w a h =
      elim (Bool-cases (is_early (p app.key) now app.spec.lifecycle.reap_interval)) [
        | inl e ↦ rw e h
        | inr e ↦
            rw (e, advance-requests app now p f (reap_app c app now w))
              (reap_app-IsScaleDown begin app now w a h)
      ]

  reap_apps-IsScaleDown :
      (begin : c.Server) (now : Time) (l : List PerUserApp)
      (s : Passes × Option ApiError × World c.Server)
      → All (IsListedApp c begin) l
      → All (IsScaleDown c begin now) (requests s.2.log)
      → All (IsScaleDown c begin now) (requests (reap_apps c now l s).2.log)
  unfolding reap_apps
  reap_apps-IsScaleDown begin now [] s a h = h
  reap_apps-IsScaleDown begin now (app ∷ l) s a h =
      reap_apps-IsScaleDown begin now l (reap_one c now app s) a.1
        (reap_one-IsScaleDown begin now app s.0 s.1 s.2 a.0 h)

  -- A whole pass of the Reaper, from an empty log and whatever the server answers, writes nothing
  -- but `status.scaledDown = true` on workspaces as they were listed for an app that the pass
  -- listed at its beginning, and only on those that are reapable for that app at the time of the
  -- pass: no Deployment, no claim, no other field, and it deletes nothing.
  pub reap-IsScaleDown :
      (now : Time) (p : Passes) (s : c.Server)
      → All (IsScaleDown c s now) (requests (reap c now p (record { server = s; log = [] })).2.log)
  unfolding reap
  reap-IsScaleDown now p s = elim (answer-cases (c.list_apps s)) [
    | inl (l, t, e) ↦
        rw (e, reap)
          (reap_apps-IsScaleDown s now l (p, none, record { server = t; log = [] })
            (All-members (IsListedApp c s) l (λ app m. (l, t, e, m))) tt)
    | inr (d, t, e) ↦ rw (e, reap) tt
  ]

  -- A scale-down that loses the race against another write, such as a wake, is refused whole: if
  -- the server refuses a status update whose resource version is not the current one, then the
  -- round for a stale workspace leaves the server as it was and reports no error.
  reap_workspace-stale :
      (version : c.Server → Key → Option Text)
      → ((ws : Workspace) (s : c.Server)
          → version s ws.key ≢ some ws.resource_version
          → c.write (update_workspace_status ws) s ≡ (err conflict, s))
      → (app : PerUserApp) (now : Time) (ws : Workspace) (first : Option ApiError)
        (w : World c.Server)
      → version w.server ws.key ≢ some ws.resource_version
      → ((reap_workspace c app now ws (first, w)).0 ≡ first)
        × ((reap_workspace c app now ws (first, w)).1.server ≡ w.server)
  unfolding reap_workspace scale_down send
  reap_workspace-stale version law app now ws first w stale =
      ground (arith, law (scaled ws) w.server stale)
