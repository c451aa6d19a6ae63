-- ===== src/Examples/Resolving.antt =====
-- The theorems on the router's cache of addresses at concrete inputs.
use per_user_container_opera.Common.{
  ◌≡◌, refl, none, some, List, [], ◌∷◌, Text, codes, ℤ, pos, ok, arith, Option, if◌then◌else◌, any,
  ◌*◌,
}
use per_user_container_opera.Api.Workspace.{Key}
use per_user_container_opera.Cluster.{Client, World}
use per_user_container_opera.Router.Resolver.{
  resolve, fill, WatchEvent, deleted, service, Session, refused, served, asleep, before_watch,
  handle_service_event, watch_deletes, watch_service_deletes,
}
use per_user_container_opera.Router.Resolver.Coherence.{
  System, begin, next, reads, fills, resolve-live,
}
use per_user_container_opera.Router.Resolver.Race.{Run, stale_address}
use per_user_container_opera.Router.Resolver.Watch.{
  expected_delays, watch_deletes-delays, delivered, tells_gone, watch_service_deletes_lem,
}
use per_user_container_opera.Examples.Data.{at, steady}

abbrev place : Key
place = record { namespace = codes "dev"; name = codes "ide-u-1" }

abbrev server : Client
server = steady [] [] []

abbrev join : Text → ℤ → Text
join host port = host

-- Every Service has the one address.
abbrev live : Key → Option Text
live k = some (codes "10.0.0.7")

abbrev fresh : System
fresh = record { live = live; cache = λ k. none; pending = [] }

abbrev world : World (Unit {0})
world = record { server = tt; log = [] }

resolve-live_example :
    (resolve server join (fill (λ k. none) place (codes "10.0.0.7")) place (pos 80) world).1
    ≡ ok (codes "10.0.0.7")
resolve-live_example =
    resolve-live server join (pos 80)
      (record fresh { cache = fill fresh.cache place (codes "10.0.0.7") }) [] place world
      (next (next (begin live) (reads fresh [] place (codes "10.0.0.7") refl) tt)
        (fills fresh [] [] place (codes "10.0.0.7")) tt)
      (λ m. elim m [ ]) refl

stale_address_example :
    (t : System) × Run server join (pos 80) (fresh, []) (t, [])
    × (t.live place ≡ none)
    × (t.pending ≡ [])
    × (t.cache place ≡ some (codes "10.0.0.7"))
    × ((w : World (Unit {0}))
        → (resolve server join t.cache place (pos 80) w).1 ≡ ok (codes "10.0.0.7"))
stale_address_example =
    stale_address server join (pos 80) fresh place (codes "10.0.0.7") refl refl refl

abbrev gone : WatchEvent
gone = record { type = deleted; object = service place }

-- Two refused calls, a session that a deletion ends soon, and a long one.
abbrev sessions : List Session
sessions = refused ∷ refused ∷ served (gone ∷ []) (pos 5) ∷ served [] (at 600) ∷ []

watch_deletes-delays_example :
    (watch_deletes handle_service_event
      (pos 200000000)
      (at 30)
      sessions
      (asleep refused)
      (λ k. none)).0
    ≡ expected_delays 200000000 (30 * 1000000000) 0 sessions (asleep refused)
watch_deletes-delays_example =
    watch_deletes-delays handle_service_event 200000000 (30 * 1000000000) (omega arith)
      (omega arith) sessions (asleep refused) (λ k. none)

watch_service_deletes_lem_example :
    (watch_service_deletes (pos 0) (pos 0) sessions before_watch live).1 place
    ≡ (if any (tells_gone place) (delivered sessions before_watch) then none else live place)
watch_service_deletes_lem_example =
    watch_service_deletes_lem (pos 0) (pos 0) sessions before_watch live place
