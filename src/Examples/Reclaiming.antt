-- ===== src/Examples/Reclaiming.antt =====
-- The Reclaimer's theorems at concrete inputs.
use mathlib.Core.List.{Perm}
use per_user_container_opera.Common.{
  ◌≡◌, refl, false, none, some, List, [], ◌∷◌, ◌++◌, map, Text, codes, All, keep, push_all,
}
use per_user_container_opera.Api.Workspace.{Workspace, Key, idle, failed}
use per_user_container_opera.Cluster.{Client, World, requests}
use per_user_container_opera.Reaper.Pass.{Passes}
use per_user_container_opera.Reclaimer.Selection.{is_live, less_recent, candidates, victims}
use per_user_container_opera.Reclaimer.Selection.Laws.{victims_oldest}
use per_user_container_opera.Reclaimer.Deletion.{
  is_orphan, reclaim_workspace, reclaim_orphaned_claims,
}
use per_user_container_opera.Reclaimer.Deletion.Order.{InOrder, reclaim_workspace-InOrder}
use per_user_container_opera.Reclaimer.Deletion.Sweep.{deletion, reclaim_orphaned_claims-requests}
use per_user_container_opera.Reclaimer.Deletion.Allowed.{Allowed}
use per_user_container_opera.Reclaimer.Pass.{reclaim}
use per_user_container_opera.Reclaimer.Pass.Writes.{reclaim-Allowed}
use per_user_container_opera.Examples.Data.{at, workspace, app, steady, reclaiming, orphan}

abbrev resting : Workspace
resting = workspace (codes "u-1") idle

abbrev broken : Workspace
broken = workspace (codes "u-2") failed

abbrev both : List Workspace
both = resting ∷ broken ∷ []

victims_oldest_example :
    (rest : List Workspace) × Perm
      (victims (app none) reclaiming (at 1000) both ++ rest)
      (candidates (app none) reclaiming (at 1000) (keep is_live both))
    × All
        (λ v. All (λ u. less_recent u v ≡ false) rest)
        (victims (app none) reclaiming (at 1000) both)
victims_oldest_example = victims_oldest (app none) reclaiming (at 1000) both

abbrev server : Client
server = steady (app (some reclaiming) ∷ []) both (orphan ∷ [])

abbrev fresh : World (Unit {0})
fresh = record { server = tt; log = [] }

abbrev clock : Key → Text
clock k = codes "now"

reclaim_workspace-InOrder_example :
    InOrder server clock reclaiming resting orphan tt
      (reclaim_workspace server clock (app none) reclaiming resting fresh).1.log
reclaim_workspace-InOrder_example =
    reclaim_workspace-InOrder server clock (app none) reclaiming resting tt tt orphan refl

reclaim_orphaned_claims-requests_example :
    requests (reclaim_orphaned_claims server (app none) [] fresh).1.log
    ≡ push_all (map deletion (keep (is_orphan (app none) []) (orphan ∷ []))) []
reclaim_orphaned_claims-requests_example =
    reclaim_orphaned_claims-requests server (app none) [] fresh (orphan ∷ []) tt refl

abbrev never : Passes
never = λ k. none

reclaim-Allowed_example :
    All (Allowed server tt (at 1000)) (requests (reclaim server clock (at 1000) never fresh).2.log)
reclaim-Allowed_example = reclaim-Allowed server clock tt (at 1000) never

abbrev opted_out : Client
opted_out = steady (app none ∷ []) both (orphan ∷ [])
