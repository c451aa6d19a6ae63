-- ===== src/Router/Resolver/Watch.antt =====
-- The watch loop of internal/router/resolve.go over many sessions: how long it sleeps, and what it
-- leaves in the cache.
use per_user_container_opera.Common.{
  ℕ, suc, ◌*◌, ◌^◌, ◌≤◌, ◌<◌, min, subst, ◌≡◌, refl, sym, ap, ◌∙◌, inl, inr, Bool, true, false,
  ◌||◌, ◌&&◌, Option, none, List, [], ◌∷◌, ◌++◌, Text, pos, ◌*ℤ◌, wrap64_of_IsInt64, Duration,
  if◌then◌else◌, any, arith, Bool-cases,
}
use native.Mathlib.Numerals.{unary_clauses}
use per_user_container_opera.Api.Workspace.{Key, key_eq}
use per_user_container_opera.Router.Resolver.{
  Cache, invalidate, WatchEvent, WatchObject, service, named, nameless, is_deleted,
  handle_service_event, next_backoff, Session, refused, served, Stop, before_watch, in_session,
  asleep, drain, after_session, is_healthy, delay, ratchet, watch_loop, watch_deletes,
  watch_service_deletes, reconnect_min_backoff, reconnect_max_backoff, forget_service,
}

-- The backoff after `n` sessions in a row that were too short.
abbrev pub doubled : ℕ → ℕ → ℕ → Duration
doubled lo hi n = pos (min (lo * 2 ^ n) hi)

twice : (b : ℕ) → pos b *ℤ pos 2 ≡ pos (b * 2)
unfolding ◌*ℤ◌
twice b = ground arith

next_backoff-pos :
    (b hi : ℕ) → b < 4611686018427387904 → next_backoff (pos b) (pos hi) ≡ pos (min (b * 2) hi)
unfolding next_backoff
next_backoff-pos b hi h =
    rw (twice b) (rw (wrap64_of_IsInt64 (pos (b * 2)) (omega arith)) (ground arith))

next_backoff-doubled :
    (lo hi n : ℕ)
    → hi < 4611686018427387904
    → next_backoff (doubled lo hi n) (pos hi) ≡ doubled lo hi (suc n)
next_backoff-doubled lo hi n h =
    next_backoff-pos (min (lo * 2 ^ n) hi) hi (omega arith)
    ∙ simp unary_clauses (ap pos (capped lo hi (2 ^ n)))
  where
    capped : (l k p : ℕ) → min (min (l * p) k * 2) k ≡ min (l * (p * 2)) k
    capped l k p = grind arith

-- The reference: the sleep after a session is the floor if the session was healthy, and otherwise the
-- floor doubled once for each session in a row before it that was not, up to the ceiling.
module _ (lo hi : ℕ) where
  abbrev pub short_after : ℕ → Bool → ℕ
  short_after n healthy = if healthy then 0 else suc n

  abbrev pub expected_delay : ℕ → Bool → Duration
  expected_delay n healthy = if healthy then pos lo else doubled lo hi n

  abbrev pub expected_last : ℕ → Stop → List Duration
  expected_last n before_watch = []
  expected_last n (in_session s) = []
  expected_last n (asleep s) = expected_delay n (is_healthy (pos lo) s) ∷ []

  unfoldable pub expected_delays : ℕ → List Session → Stop → List Duration
  expected_delays n [] stop = expected_last n stop
  expected_delays n (s ∷ rest) stop =
      expected_delay n (is_healthy (pos lo) s)
      ∷ expected_delays (short_after n (is_healthy (pos lo) s)) rest stop

module _ (on_delete : WatchEvent → Cache → Cache) (lo hi : ℕ) (b : lo ≤ hi)
    (h : hi < 4611686018427387904) where
  ratchet-doubled :
      (n : ℕ) (s : Session)
      → ratchet (pos lo) (pos hi) s (doubled lo hi n)
        ≡ doubled lo hi (short_after lo hi n (is_healthy (pos lo) s))
  ratchet-doubled n s = elim (Bool-cases (is_healthy (pos lo) s)) [
    | inl e ↦ rw e (simp unary_clauses (ap pos (omega arith)))
    | inr e ↦ rw e (next_backoff-doubled lo hi n h)
  ]

  watch_loop-delays :
      (sessions : List Session) (stop : Stop) (n : ℕ) (cache : Cache)
      → (watch_loop on_delete (pos lo) (pos hi) sessions stop (doubled lo hi n) cache).0
        ≡ expected_delays lo hi n sessions stop
  unfolding watch_loop expected_delays
  watch_loop-delays [] before_watch n cache = refl
  watch_loop-delays [] (in_session s) n cache = refl
  watch_loop-delays [] (asleep s) n cache = refl
  watch_loop-delays (s ∷ rest) stop n cache = rw (ratchet-doubled n s) (
      ap (λ (t : List Duration). delay (pos lo) s (doubled lo hi n) ∷ t)
        (watch_loop-delays rest stop (short_after lo hi n (is_healthy (pos lo) s))
          (after_session on_delete s cache)))

  -- Between reconnects, the watch of deletions sleeps exactly as the reference says: the floor after
  -- a session that lasted at least the floor, and otherwise the floor doubled for each session in a
  -- row that was shorter or refused, but never more than the ceiling, for every floor that is at most
  -- the ceiling and a ceiling below half of what an int64 holds.
  pub watch_deletes-delays :
      (sessions : List Session) (stop : Stop) (cache : Cache)
      → (watch_deletes on_delete (pos lo) (pos hi) sessions stop cache).0
        ≡ expected_delays lo hi 0 sessions stop
  unfolding watch_deletes
  watch_deletes-delays sessions stop cache =
      subst
        (λ d.
          (watch_loop on_delete (pos lo) (pos hi) sessions stop d cache).0
          ≡ expected_delays lo hi 0 sessions stop)
        (ap pos (omega arith)) (watch_loop-delays sessions stop 0 cache)

-- Everything that the sessions delivered, in order.
abbrev pub events_of : Session → List WatchEvent
events_of refused = []
events_of (served events elapsed) = events

abbrev pub last_events : Stop → List WatchEvent
last_events before_watch = []
last_events (in_session s) = events_of s
last_events (asleep s) = events_of s

abbrev pub delivered : List Session → Stop → List WatchEvent
delivered [] stop = last_events stop
delivered (s ∷ rest) stop = events_of s ++ delivered rest stop

module _ (on_delete : WatchEvent → Cache → Cache) where
  drain-append :
      (a b : List WatchEvent) (cache : Cache)
      → drain on_delete (a ++ b) cache ≡ drain on_delete b (drain on_delete a cache)
  unfolding drain
  drain-append [] b cache = refl
  drain-append (e ∷ a) b cache = drain-append a b (on_delete e cache)

  after_session-drain :
      (s : Session) (cache : Cache)
      → after_session on_delete s cache ≡ drain on_delete (events_of s) cache
  unfolding drain
  after_session-drain refused cache = refl
  after_session-drain (served events elapsed) cache = refl

  module _ (min_backoff max_backoff : Duration) where
    watch_loop-drain :
        (sessions : List Session) (stop : Stop) (backoff : Duration) (cache : Cache)
        → (watch_loop on_delete min_backoff max_backoff sessions stop backoff cache).1
          ≡ drain on_delete (delivered sessions stop) cache
    unfolding watch_loop drain
    watch_loop-drain [] before_watch backoff cache = refl
    watch_loop-drain [] (in_session s) backoff cache = after_session-drain s cache
    watch_loop-drain [] (asleep s) backoff cache = after_session-drain s cache
    watch_loop-drain (s ∷ rest) stop backoff cache =
        watch_loop-drain rest stop (ratchet min_backoff max_backoff s backoff)
          (after_session on_delete s cache)
        ∙ ap (drain on_delete (delivered rest stop)) (after_session-drain s cache)
        ∙ sym (drain-append (events_of s) (delivered rest stop) cache)

-- Whether an event tells that the Service of a key is gone.
abbrev pub names_service : Key → WatchObject → Bool
names_service key (service k) = key_eq k key
names_service key (named k) = false
names_service key nameless = false

abbrev pub tells_gone : Key → WatchEvent → Bool
tells_gone key evt = is_deleted evt.type && names_service key evt.object

forget-tells_gone :
    (key : Key) (evt : WatchEvent) (cache : Cache)
    → handle_service_event evt cache key ≡ (if tells_gone key evt then none else cache key)
unfolding handle_service_event invalidate
forget-tells_gone key evt cache = elim (Bool-cases (is_deleted evt.type)) [
  | inl e ↦ rw e (by_object evt.object)
  | inr e ↦ rw e refl
]
  where
    by_object :
        (o : WatchObject)
        → forget_service o cache key ≡ (if names_service key o then none else cache key)
    by_object (service k) = refl
    by_object (named k) = refl
    by_object nameless = refl

drain-tells_gone :
    (key : Key) (events : List WatchEvent) (cache : Cache)
    → drain handle_service_event events cache key
      ≡ (if any (tells_gone key) events then none else cache key)
unfolding drain
drain-tells_gone key [] cache = refl
drain-tells_gone key (e ∷ events) cache =
    drain-tells_gone key events (handle_service_event e cache)
    ∙ rw (forget-tells_gone key e cache)
        (joined (tells_gone key e) (any (tells_gone key) events) (cache key))
  where
    joined :
        (a b : Bool) (o : Option Text)
        → (if b then none else if a then none else o) ≡ (if a || b then none else o)
    joined true true o = refl
    joined true false o = refl
    joined false true o = refl
    joined false false o = refl

-- However many times the watch of the Services is refused or closed and made again, with whatever
-- backoffs, it drops from the cache exactly the Services whose deletion some session delivered, and
-- leaves every other entry as it was.
pub watch_service_deletes_lem :
    (configured_min configured_max : Duration) (sessions : List Session) (stop : Stop)
    (cache : Cache) (key : Key)
    → (watch_service_deletes configured_min configured_max sessions stop cache).1 key
      ≡ (if any (tells_gone key) (delivered sessions stop) then none else cache key)
unfolding watch_service_deletes watch_deletes
watch_service_deletes_lem configured_min configured_max sessions stop cache key =
    ap (λ (left : Cache). left key)
      (watch_loop-drain handle_service_event (reconnect_min_backoff configured_min)
        (reconnect_max_backoff configured_max) sessions stop (reconnect_min_backoff configured_min)
        cache)
    ∙ drain-tells_gone key (delivered sessions stop) cache
