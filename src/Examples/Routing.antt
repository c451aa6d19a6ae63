-- ===== src/Examples/Routing.antt =====
-- The router's theorems at concrete inputs.
use per_user_container_opera.Common.{
  ◌≡◌, refl, false, none, [], ◌∷◌, codes, pos, ok, arith, wrap64, ◌*ℤ◌, ◌-ℤ◌, saturate, map_set,
}
use per_user_container_opera.Api.Workspace.{Workspace, Key, ready}
use per_user_container_opera.Cluster.{Client}
use per_user_container_opera.Reaper.Predicate.{is_reapable, threshold}
use per_user_container_opera.Router.Connections.{Counts, published}
use per_user_container_opera.Router.Connections.Alive.{is_reapable-published}
use per_user_container_opera.Examples.Data.{at, workspace, app, steady}

abbrev resting : Workspace
resting = workspace (codes "u-1") ready

abbrev place : Key
place = record { namespace = codes "dev"; name = codes "ide" }

abbrev counts : Counts
counts = (place, pos 2) ∷ []

abbrev server : Client
server = record (steady [] (resting ∷ []) []) { get_workspace = λ k s. (ok resting, s) }

-- A quarter of an hour after its last activity, but ten seconds after a router has reported a session.
is_reapable-published_example :
    is_reapable (published (codes "r-1") (pos 1) (at 990) resting) (app none) (at 1000) ≡ false
unfolding threshold wrap64 ◌*ℤ◌ saturate ◌-ℤ◌ map_set
is_reapable-published_example =
    is_reapable-published resting (app none) (codes "r-1") (pos 1) (at 990) (at 1000) (omega arith)
      refl (omega arith) (omega arith)
