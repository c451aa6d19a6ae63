-- ===== src/Examples/Reaping.antt =====
-- The Reaper's theorems at concrete inputs.
use per_user_container_opera.Common.{
  ◌≡◌, refl, true, false, none, List, [], ◌∷◌, Text, codes, pos, All, err, conflict, ◌-ℤ◌, saturate,
}
use per_user_container_opera.Api.Workspace.{Workspace, ready, ConnectionEntry}
use per_user_container_opera.Cluster.{Client, World, requests}
use per_user_container_opera.Reaper.Predicate.{is_reapable, sum_fresh, fresh_connection_count}
use per_user_container_opera.Reaper.Pass.{reap, Passes}
use per_user_container_opera.Reaper.Pass.Writes.{IsScaleDown, reap-IsScaleDown}
use per_user_container_opera.Examples.Data.{at, workspace, app, steady, status}

abbrev idle_one : Workspace
idle_one = workspace (codes "u-1") ready

abbrev busy_one : Workspace
busy_one = record idle_one { status = record (status ready) { connections = links } }
  where
    links : List (Text × ConnectionEntry)
    links =
        (codes "r-1", record { count = pos 0; heartbeat_at = at 999 })
        ∷ (codes "r-2", record { count = pos 1; heartbeat_at = at 990 })
        ∷ []

-- An idle workspace is reaped after a minute, and not before.
reapable_after :
    (is_reapable idle_one (app none) (at 161) ≡ true)
    × (is_reapable idle_one (app none) (at 160) ≡ false)
unfolding is_reapable saturate ◌-ℤ◌ fresh_connection_count sum_fresh
reapable_after = (refl, refl)

abbrev server : Client
server = steady (app none ∷ []) (idle_one ∷ busy_one ∷ []) []

abbrev fresh : World (Unit {0})
fresh = record { server = tt; log = [] }

abbrev never : Passes
never = λ k. none

reap-IsScaleDown_example :
    All (IsScaleDown server tt (at 1000)) (requests (reap server (at 1000) never fresh).2.log)
reap-IsScaleDown_example = reap-IsScaleDown server (at 1000) never tt

-- A server where the workspace is gone, and that refuses every status update.
abbrev emptied : Client
emptied = record server { write = λ q s. (err conflict, s) }
