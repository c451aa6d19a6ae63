-- ===== src/Reclaimer/Pass.antt =====
-- internal/controller/reclaimer.go: `reclaimApp` and `Reclaim`.
pub mod Writes
use per_user_container_opera.Common.{
  ◌≡◌, refl, Bool, true, false, not, ◌&&◌, Option, none, some, List, [], ◌∷◌, Text, Time,
  if◌then◌else◌, Result, ok, err, ApiError,
}
use per_user_container_opera.Api.Workspace.{Workspace, Key}
use per_user_container_opera.Api.App.{PerUserApp, ReclaimSpec}
use per_user_container_opera.Cluster.{Client, World, M, ◌>>=◌, ◌>>◌, then_step, read}
use per_user_container_opera.Reaper.Pass.{first_error, as_result, Passes, mark, is_early}
use per_user_container_opera.Reclaimer.Selection.{victims, enabled_reclaim}
use per_user_container_opera.Reclaimer.Deletion.{reclaim_workspace, reclaim_orphaned_claims}

module _ (c : Client) (stamp : Key → Text) where
  abbrev collect :
      Option ApiError → Result (Unit {0}) × World c.Server → Option ApiError × World c.Server
  collect first (ok u, w) = (first, w)
  collect first (err e, w) = (first_error first e, w)

  -- The last loop of `reclaimApp`.
  reclaim_each :
      PerUserApp
      → ReclaimSpec
      → List Workspace
      → Option ApiError × World c.Server
      → Option ApiError × World c.Server
  reclaim_each app spec [] s = s
  reclaim_each app spec (ws ∷ rest) (first, w) =
      reclaim_each app spec rest (collect first (reclaim_workspace c stamp app spec ws w))

  reclaim_victims : PerUserApp → ReclaimSpec → List Workspace → M c.Server (Unit {0})
  unfolding reclaim_each
  reclaim_victims app spec l w =
      let (first, w') = reclaim_each app spec l (none, w) in (as_result first, w')

  unfoldable pub reclaim_app : PerUserApp → ReclaimSpec → Time → M c.Server (Unit {0})
  unfolding reclaim_victims
  reclaim_app app spec now = do
    workspaces ← read (c.list_workspaces app.key.namespace app.key.name)
    reclaim_orphaned_claims c app workspaces
    reclaim_victims app spec (victims app spec now workspaces)

  abbrev advance :
      PerUserApp
      → Time
      → Passes
      → Option ApiError
      → Result (Unit {0}) × World c.Server
      → Passes × Option ApiError × World c.Server
  advance app now passes first (ok u, w) = (mark passes app.key now, first, w)
  advance app now passes first (err e, w) = (passes, first_error first e, w)

  -- One round of the loop of `Reclaim`.
  reclaim_one :
      Time
      → PerUserApp
      → Passes × Option ApiError × World c.Server
      → Passes × Option ApiError × World c.Server
  reclaim_one now app (passes, first, w) = elim (enabled_reclaim app) [
    | none ↦ (passes, first, w)
    | some spec ↦
        if is_early (passes app.key) now spec.interval
        then (passes, first, w)
        else advance app now passes first (reclaim_app app spec now w)
  ]

  reclaim_apps :
      Time
      → List PerUserApp
      → Passes × Option ApiError × World c.Server
      → Passes × Option ApiError × World c.Server
  unfolding reclaim_one
  reclaim_apps now [] s = s
  reclaim_apps now (app ∷ rest) s = reclaim_apps now rest (reclaim_one now app s)

  finish : Passes × Option ApiError × World c.Server → Passes × Result (Unit {0}) × World c.Server
  finish (passes, first, w) = (passes, as_result first, w)

  reclaim_listed :
      Time
      → Passes
      → Result (List PerUserApp) × World c.Server
      → Passes × Result (Unit {0}) × World c.Server
  unfolding reclaim_apps finish
  reclaim_listed now passes (ok apps, w) = finish (reclaim_apps now apps (passes, none, w))
  reclaim_listed now passes (err e, w) = (passes, err e, w)

  -- `Reclaim`: the new map of last passes, and the first error.
  pub reclaim : Time → Passes → World c.Server → Passes × Result (Unit {0}) × World c.Server
  unfolding reclaim_listed
  reclaim now passes w = reclaim_listed now passes (read c.list_apps w)
