-- ===== src/Router/Resolver/Race.antt =====
-- What two goroutines can do to the cache of addresses (internal/router/resolve.go): `Resolve` reads
-- the Service and fills the cache in two steps, and a deletion may be handled between them.
use per_user_container_opera.Common.{
  ◌≡◌, refl, true, none, some, List, [], ◌∷◌, ◌++◌, Text, ℤ, if◌then◌else◌, ok,
}
use per_user_container_opera.Api.Workspace.{Key, key_eq, key_eq_iff}
use per_user_container_opera.Cluster.{Client, World}
use per_user_container_opera.Router.Resolver.{fill, invalidate, resolve, handle_service_event}
use per_user_container_opera.Router.Resolver.Coherence.{
  System, Step, removed, service_handled, gone,
}

module _ (c : Client) (join : Text → ℤ → Text) (port : ℤ) where
  -- A system with the addresses that are fetched and not yet in the cache.
  pub data Move : System × List (Key × Text) → System × List (Key × Text) → Type 0 where
    other :
        (s t : System) (held : List (Key × Text)) → Step c join port s t → Move (s, held) (t, held)
    fetch :
        (s : System) (held : List (Key × Text)) (key : Key) (ip : Text)
        → s.cache key ≡ none
        → s.live key ≡ some ip
        → Move (s, held) (s, (key, join ip port) ∷ held)
    store :
        (s : System) (held : List (Key × Text)) (key : Key) (addr : Text)
        → Move (s, (key, addr) ∷ held) (record s { cache = fill s.cache key addr }, held)

  infixr 5 ◌then◌
  pub data Run : System × List (Key × Text) → System × List (Key × Text) → Type 0 where
    done : (p : System × List (Key × Text)) → Run p p
    ◌then◌ : {p q r : System × List (Key × Text)} → Move p q → Run q r → Run p r

  itself : (key : Key) → key_eq key key ≡ true
  itself key = (key_eq_iff key key).1 refl

  -- From every state in which a Service is live, not cached, and no deletion is pending, the steps of
  -- the code lead to one in which that Service is gone, no deletion is pending and no resolution is
  -- under way, and yet the cache has its address: whatever the server would answer, resolving the
  -- name answers the address of the Service that is gone.
  pub stale_address :
      (s : System) (key : Key) (ip : Text)
      → s.live key ≡ some ip
      → s.cache key ≡ none
      → s.pending ≡ []
      → (t : System) × Run (s, []) (t, [])
        × (t.live key ≡ none)
        × (t.pending ≡ [])
        × (t.cache key ≡ some (join ip port))
        × ((w : World c.Server) → (resolve c join t.cache key port w).1 ≡ ok (join ip port))
  unfolding fill invalidate resolve
  stale_address s key ip l n p =
      let gone_state = record s {
        live = invalidate s.live key;
        pending = s.pending ++ (key ∷ []);
      } in
      let handled = record gone_state {
        cache = handle_service_event (gone key) s.cache;
        pending = [];
      } in
      let stale = record handled { cache = fill handled.cache key (join ip port) } in
      let held = (key, join ip port) ∷ [] in
      let run : Run (s, []) (stale, []) =
        fetch s [] key ip n l
        then other s gone_state held (removed key ip l)
        then other gone_state handled held (service_handled key [] (rw p refl))
        then store handled [] key (join ip port)
        then done (stale, []) in
      (stale, run, rw (itself key) refl, refl, rw (itself key) refl, λ w. rw (itself key) refl)
