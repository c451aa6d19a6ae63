-- ===== src/Reaper/Pass.antt =====
-- internal/controller/reaper.go: `ScaleDown`, `reapApp` and `Reap`.
pub mod Writes
pub mod Gate
use per_user_container_opera.Common.{
  ℕ, ◌≡◌, refl, ◌∙◌, sym, ap, ◌↔◌, ◌⊎◌, inl, inr, Bool, true, false, Option, none, some, List, [],
  ◌∷◌, map, Text, Time, Duration, ℤ, ltb_ℤ, time_sub, if◌then◌else◌, arith, All, keep, push_all,
  Result, ok, err, ApiError, is_conflict, is_some,
}
use per_user_container_opera.Api.Workspace.{Workspace, Key, key_eq, reap_idle}
use per_user_container_opera.Api.App.{PerUserApp}
use per_user_container_opera.Cluster.{
  Client, World, M, ◌>>=◌, ◌>>◌, pure, read, emit, send, requests, Request, update_workspace_status,
  Event, workspace_reaped, reaper_completed, then_step,
}
use per_user_container_opera.Reaper.Predicate.{is_reapable}

-- The first error of a loop that goes on.
abbrev pub first_error : Option ApiError → ApiError → Option ApiError
first_error none e = some e
first_error (some d) e = some d

abbrev pub as_result : Option ApiError → Result (Unit {0})
as_result none = ok tt
as_result (some e) = err e

-- `patchTarget` of `ScaleDown`: the workspace as it was read, with one field set.
abbrev pub scaled : Workspace → Workspace
scaled ws = record ws { status = record (ws.status) { scaled_down = true } }

-- The map of last passes.
abbrev pub Passes : Type 0
Passes = Key → Option Time

abbrev pub mark : Passes → Key → Time → Passes
mark p k t j = if key_eq k j then some t else p j

-- `seen && now.Sub(last) < interval`.
abbrev pub is_early : Option Time → Time → Duration → Bool
is_early none now interval = false
is_early (some last) now interval = ltb_ℤ (time_sub now last) interval

module _ (c : Client) where
  unfoldable pub scale_down : Workspace → M c.Server (Unit {0})
  scale_down ws = do
    send c (update_workspace_status (scaled ws))
    emit (workspace_reaped ws.key.namespace ws.spec.app_ref reap_idle)

  -- A conflict is the outcome meant for a lost race, and no error.
  abbrev pub absorb :
      Option ApiError → Result (Unit {0}) × World c.Server → Option ApiError × World c.Server
  absorb first (ok u, w) = (first, w)
  absorb first (err e, w) = (if is_conflict e then first else first_error first e, w)

  -- One round of the loop of `reapApp`.
  pub reap_workspace :
      PerUserApp
      → Time
      → Workspace
      → Option ApiError × World c.Server
      → Option ApiError × World c.Server
  reap_workspace app now ws (first, w) =
      if is_reapable ws app now then absorb first (scale_down ws w) else (first, w)

  reap_workspaces :
      PerUserApp
      → Time
      → List Workspace
      → Option ApiError × World c.Server
      → Option ApiError × World c.Server
  reap_workspaces app now [] s = s
  reap_workspaces app now (ws ∷ rest) s = reap_workspaces app now rest (reap_workspace app now ws s)

  unfoldable pub reap_app : PerUserApp → Time → M c.Server (Unit {0})
  unfolding reap_workspaces reap_workspace
  reap_app app now = do
    workspaces ← read (c.list_workspaces app.key.namespace app.key.name)
    λ w. let (first, w') = reap_workspaces app now workspaces (none, w) in (as_result first, w')

  -- What one round of the loop of `Reap` makes of the outcome of `reapApp`.
  abbrev advance :
      PerUserApp
      → Time
      → Passes
      → Option ApiError
      → Result (Unit {0}) × World c.Server
      → Passes × Option ApiError × World c.Server
  advance app now passes first (ok u, w) =
      (mark passes app.key now, first, record w { log = reaper_completed app.key now ∷ w.log })
  advance app now passes first (err e, w) = (passes, first_error first e, w)

  reap_one :
      Time
      → PerUserApp
      → Passes × Option ApiError × World c.Server
      → Passes × Option ApiError × World c.Server
  reap_one now app (passes, first, w) =
      if is_early (passes app.key) now app.spec.lifecycle.reap_interval
      then (passes, first, w)
      else advance app now passes first (reap_app app now w)

  reap_apps :
      Time
      → List PerUserApp
      → Passes × Option ApiError × World c.Server
      → Passes × Option ApiError × World c.Server
  reap_apps now [] s = s
  reap_apps now (app ∷ rest) s = reap_apps now rest (reap_one now app s)

  finish : Passes × Option ApiError × World c.Server → Passes × Result (Unit {0}) × World c.Server
  finish (passes, first, w) = (passes, as_result first, w)

  reap_listed :
      Time
      → Passes
      → World c.Server
      → Result (List PerUserApp)
      → Passes × Result (Unit {0}) × World c.Server
  unfolding reap_apps reap_one finish
  reap_listed now passes w (ok apps) = finish (reap_apps now apps (passes, none, w))
  reap_listed now passes w (err e) = (passes, err e, w)

  -- `Reap`: the new map of last passes, and the first error.
  pub reap : Time → Passes → World c.Server → Passes × Result (Unit {0}) × World c.Server
  unfolding reap_listed
  reap now passes w = let (listed, w') = read c.list_apps w in reap_listed now passes w' listed
