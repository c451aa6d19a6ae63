-- ===== src/Reaper/Pass/Gate.antt =====
-- When an app is evaluated (internal/controller/reaper.go, Reap): the map of last passes.
use per_user_container_opera.Common.{
  ◌≡◌, refl, ◌∙◌, inl, inr, Bool, false, Option, none, some, List, [], ◌∷◌, ◌||◌, Time,
  if◌then◌else◌, arith, Result, ok, err, ApiError, Bool-cases,
}
use per_user_container_opera.Api.Workspace.{Workspace, Key, key_eq}
use per_user_container_opera.Api.App.{PerUserApp}
use per_user_container_opera.Cluster.{
  Client, World, send, Event, answer-cases, sent, workspace_reaped, start_failed, reaper_completed,
  measured, config_warning,
}
use per_user_container_opera.Reaper.Pass.{
  scale_down, advance, is_early, reap_workspace, reap_workspaces, reap_app, reap_one, reap_apps,
  reap, Passes,
}

-- Whether a log has the completion gauge of an app.
abbrev pub completed : Key → List Event → Bool
completed k [] = false
completed k (reaper_completed j t ∷ l) = key_eq j k || completed k l
completed k (sent q o ∷ l) = completed k l
completed k (workspace_reaped ns app r ∷ l) = completed k l
completed k (start_failed ns app r ∷ l) = completed k l
completed k (measured m ∷ l) = completed k l
completed k (config_warning j t ∷ l) = completed k l

module _ (c : Client) (now : Time) (k : Key) where
  reap_workspace-completed :
      (app : PerUserApp) (ws : Workspace) (s : Option ApiError × World c.Server)
      → completed k (reap_workspace c app now ws s).1.log ≡ completed k s.1.log
  unfolding reap_workspace scale_down send
  reap_workspace-completed app ws (first, w) = ground arith

  reap_workspaces-completed :
      (app : PerUserApp) (l : List Workspace) (s : Option ApiError × World c.Server)
      → completed k (reap_workspaces c app now l s).1.log ≡ completed k s.1.log
  unfolding reap_workspaces
  reap_workspaces-completed app [] s = refl
  reap_workspaces-completed app (ws ∷ l) s =
      reap_workspaces-completed app l (reap_workspace c app now ws s)
      ∙ reap_workspace-completed app ws s

  reap_app-completed :
      (app : PerUserApp) (w : World c.Server)
      → completed k (reap_app c app now w).1.log ≡ completed k w.log
  unfolding reap_app
  reap_app-completed app w =
      elim (answer-cases (c.list_workspaces app.key.namespace app.key.name w.server)) [
        | inl (l, s, e) ↦
            rw (e, reap_app) (reap_workspaces-completed app l (none, record w { server = s }))
        | inr (d, s, e) ↦ rw (e, reap_app)
      ]

  -- The map and the gauges agree: an app has its mark moved exactly when its gauge is set.
  abbrev Agrees : Passes → Passes × Option ApiError × World c.Server → Type 0
  Agrees before s = s.0 k ≡ (if completed k s.2.log then some now else before k)

  advance-Agrees :
      (before p : Passes) (app : PerUserApp) (f : Option ApiError)
      (r : Result (Unit {0}) × World c.Server)
      → p k ≡ (if completed k r.1.log then some now else before k)
      → Agrees before (advance c app now p f r)
  advance-Agrees before p app f (ok u, w) h = ground arith
  advance-Agrees before p app f (err e, w) h = h

  reap_one-Agrees :
      (before p : Passes) (app : PerUserApp) (f : Option ApiError) (w : World c.Server)
      → Agrees before (p, f, w)
      → Agrees before (reap_one c now app (p, f, w))
  unfolding reap_one
  reap_one-Agrees before p app f w h =
      elim (Bool-cases (is_early (p app.key) now app.spec.lifecycle.reap_interval)) [
        | inl e ↦ rw e h
        | inr e ↦
            rw e (
              advance-Agrees before p app f (reap_app c app now w)
                (rw (reap_app-completed app w) h))
      ]

  reap_apps-Agrees :
      (before : Passes) (l : List PerUserApp) (s : Passes × Option ApiError × World c.Server)
      → Agrees before s
      → Agrees before (reap_apps c now l s)
  unfolding reap_apps
  reap_apps-Agrees before [] s h = h
  reap_apps-Agrees before (app ∷ l) s h =
      reap_apps-Agrees before l (reap_one c now app s) (reap_one-Agrees before s.0 app s.1 s.2 h)

  -- After a pass from an empty log, the last pass of an app is the time of this pass if its
  -- completion gauge was set, and what it was otherwise: a failed or skipped evaluation neither
  -- sets the gauge nor defers the next attempt.
  reap-passes :
      (p : Passes) (s : c.Server)
      → (reap c now p (record { server = s; log = [] })).0 k ≡ (
          if completed k (reap c now p (record { server = s; log = [] })).2.log
          then some now
          else p k)
  unfolding reap
  reap-passes p s = elim (answer-cases (c.list_apps s)) [
    | inl (l, t, e) ↦
        rw (e, reap) (reap_apps-Agrees p l (p, none, record { server = t; log = [] }) refl)
    | inr (d, t, e) ↦ rw (e, reap)
  ]
