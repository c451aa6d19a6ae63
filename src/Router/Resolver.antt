-- ===== src/Router/Resolver.antt =====
-- internal/router/resolve.go: the addresses of the workspaces' Services, and the watches that tell
-- when one of them is gone. The mutex makes each change of the cache one step. A watch is the list of
-- its sessions, each with the events that it delivered before its channel closed.
pub mod Coherence
pub mod Race
pub mod Watch
use per_user_container_opera.Common.{
  Bool, true, false, Option, none, some, List, [], ◌∷◌, Text, ℤ, pos, ◌*ℤ◌, ltb_ℤ, leb_ℤ, wrap64,
  Duration, if◌then◌else◌, any, ◌*◌, Result, ok, err,
}
use per_user_container_opera.Api.Workspace.{Key, key_eq}
use per_user_container_opera.Api.Objects.{Endpoint}
use per_user_container_opera.Cluster.{Client, World, M, read, pure, ◌>>=◌, then_step}

abbrev pub Cache : Type 0
Cache = Key → Option Text

-- `r.cache[key] = addr`.
unfoldable pub fill : Cache → Key → Text → Cache
fill cache key addr k = if key_eq key k then some addr else cache k

-- `delete(r.cache, key)`.
unfoldable pub invalidate : Cache → Key → Cache
invalidate cache key k = if key_eq key k then none else cache k

-- `join` is `net.JoinHostPort(host, strconv.Itoa(int(port)))`.
module _ (c : Client) (join : Text → ℤ → Text) where
  abbrev pub fetched :
      Cache → Key → ℤ → Result Text × World c.Server → Cache × Result Text × World c.Server
  fetched cache key port (ok ip, w) = (fill cache key (join ip port), ok (join ip port), w)
  fetched cache key port (err e, w) = (cache, err e, w)

  abbrev pub looked_up :
      Option Text → Cache → Key → ℤ → World c.Server → Cache × Result Text × World c.Server
  looked_up (some addr) cache key port w = (cache, ok addr, w)
  looked_up none cache key port w = fetched cache key port (read (c.get_cluster_ip key) w)

  unfoldable pub resolve : Cache → Key → ℤ → World c.Server → Cache × Result Text × World c.Server
  resolve cache key port w = looked_up (cache key) cache key port w

-- `ep.Conditions.Ready == nil || *ep.Conditions.Ready`.
abbrev pub may_be_ready : Option Bool → Bool
may_be_ready none = true
may_be_ready (some b) = b

abbrev pub is_serving : Endpoint → Bool
is_serving ep = elim ep.addresses [ [] ↦ false | a ∷ more ↦ may_be_ready ep.ready ]

abbrev pub any_serving : List (List Endpoint) → Bool
any_serving slices = any (λ slice. any is_serving slice) slices

unfoldable pub has_endpoints : (c : Client) → Key → M c.Server Bool
has_endpoints c key = read (c.list_endpoint_slices key) >>= (λ slices. pure (any_serving slices))

pub data EventType : Type 0 where
  added modified deleted bookmark failed : EventType

-- A Service, another object with a name (`client.Object`), or one without (a `metav1.Status`).
pub data WatchObject : Type 0 where
  service : Key → WatchObject
  named : Key → WatchObject
  nameless : WatchObject

pub record WatchEvent : Type 0 where
  pub type : EventType
  pub object : WatchObject

abbrev pub is_deleted : EventType → Bool
is_deleted deleted = true
is_deleted _ = false

abbrev pub forget_service : WatchObject → Cache → Cache
forget_service (service key) cache = invalidate cache key
forget_service (named key) cache = cache
forget_service nameless cache = cache

abbrev pub forget_object : WatchObject → Cache → Cache
forget_object (service key) cache = invalidate cache key
forget_object (named key) cache = invalidate cache key
forget_object nameless cache = cache

unfoldable pub handle_service_event : WatchEvent → Cache → Cache
handle_service_event evt cache =
    if is_deleted evt.type then forget_service evt.object cache else cache

unfoldable pub handle_workspace_event : WatchEvent → Cache → Cache
handle_workspace_event evt cache =
    if is_deleted evt.type then forget_object evt.object cache else cache

unfoldable pub reconnect_min_backoff : Duration → Duration
reconnect_min_backoff configured =
    if ltb_ℤ (pos 0) configured then configured else pos (200 * 1000000)

unfoldable pub reconnect_max_backoff : Duration → Duration
reconnect_max_backoff configured =
    if ltb_ℤ (pos 0) configured then configured else pos (30 * 1000000000)

unfoldable pub next_backoff : Duration → Duration → Duration
next_backoff d max_d = let e = wrap64 (d *ℤ pos 2) in if ltb_ℤ max_d e then max_d else e

-- A call of Watch that fails, or a session: what it delivered and how long it lasted.
pub data Session : Type 0 where
  refused : Session
  served : List WatchEvent → Duration → Session

-- Where the loop meets the end of its context: before a call of Watch, in a session, or asleep
-- after one.
pub data Stop : Type 0 where
  before_watch : Stop
  in_session : Session → Stop
  asleep : Session → Stop

abbrev pub is_healthy : Duration → Session → Bool
is_healthy min_backoff refused = false
is_healthy min_backoff (served events elapsed) = leb_ℤ min_backoff elapsed

-- The sleep after a session, and the backoff for the next one.
abbrev pub delay : Duration → Session → Duration → Duration
delay min_backoff s backoff = if is_healthy min_backoff s then min_backoff else backoff

abbrev pub ratchet : Duration → Duration → Session → Duration → Duration
ratchet min_backoff max_backoff s backoff =
    if is_healthy min_backoff s then min_backoff else next_backoff backoff max_backoff

module _ (on_delete : WatchEvent → Cache → Cache) where
  -- `drainUntilClosedOrDone`.
  unfoldable pub drain : List WatchEvent → Cache → Cache
  drain [] cache = cache
  drain (evt ∷ rest) cache = drain rest (on_delete evt cache)

  abbrev pub after_session : Session → Cache → Cache
  after_session refused cache = cache
  after_session (served events elapsed) cache = drain events cache

  module _ (min_backoff max_backoff : Duration) where
    abbrev pub stopped : Stop → Duration → Cache → List Duration × Cache
    stopped before_watch backoff cache = ([], cache)
    stopped (in_session s) backoff cache = ([], after_session s cache)
    stopped (asleep s) backoff cache = (delay min_backoff s backoff ∷ [], after_session s cache)

    -- The sleeps that the loop asks for, and the cache that it leaves.
    unfoldable pub watch_loop : List Session → Stop → Duration → Cache → List Duration × Cache
    watch_loop [] stop backoff cache = stopped stop backoff cache
    watch_loop (s ∷ rest) stop backoff cache =
        let (delays, left) =
          watch_loop rest stop (ratchet min_backoff max_backoff s backoff)
            (after_session s cache) in
        (delay min_backoff s backoff ∷ delays, left)

    unfoldable pub watch_deletes : List Session → Stop → Cache → List Duration × Cache
    unfolding watch_loop
    watch_deletes sessions stop cache = watch_loop sessions stop min_backoff cache

-- The two bounds of a Resolver are as configured, 0 for the defaults.
module _ (configured_min configured_max : Duration) where
  unfoldable pub watch_service_deletes : List Session → Stop → Cache → List Duration × Cache
  unfolding watch_deletes
  watch_service_deletes =
      watch_deletes handle_service_event (reconnect_min_backoff configured_min)
        (reconnect_max_backoff configured_max)

  unfoldable pub watch_workspace_deletes : List Session → Stop → Cache → List Duration × Cache
  unfolding watch_deletes
  watch_workspace_deletes =
      watch_deletes handle_workspace_event (reconnect_min_backoff configured_min)
        (reconnect_max_backoff configured_max)
