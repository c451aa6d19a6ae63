-- ===== src/Router/Resolver/Coherence.antt =====
-- The cache of addresses (internal/router/resolve.go) beside the Services that there are: every step
-- in which a Service comes or goes or an event is handled, and the two in which `Resolve` reads a
-- Service and fills the cache.
use per_user_container_opera.Common.{
  ◌≡◌, ◌≢◌, refl, sym, ap, subst, ◌∙◌, ◌⊎◌, inl, inr, Option, none, some, List, [], ◌∷◌, ◌++◌, Text,
  ℤ, arith, Bool-cases, Option-cases, Result, ok, err, not_found, All,
}
use mathlib.Core.List.{Memᴰ}
use per_user_container_opera.Api.Workspace.{Key, key_eq, key_eq_iff}
use per_user_container_opera.Cluster.{Client, World}
use per_user_container_opera.Router.Resolver.{
  Cache, fill, invalidate, fetched, resolve, WatchEvent, deleted, service, named, nameless,
  handle_service_event, handle_workspace_event, is_deleted, WatchObject, forget_object,
}

-- The cluster IP of each Service that there is, the cache, and the deletions that the watch of the
-- Services has still to deliver, oldest first.
pub record System : Type 0 where
  pub live : Key → Option Text
  pub cache : Cache
  pub pending : List Key

-- What a read of a Service answers.
abbrev pub answer : Option Text → Result Text
answer none = err not_found
answer (some ip) = ok ip

-- The event of a deletion.
abbrev pub gone : Key → WatchEvent
gone key = record { type = deleted; object = service key }

module _ (m : Key → Option Text) (key k : Key) where
  fill-cases : (v a : Text) → fill m key v k ≡ some a → ((key ≡ k) × (v ≡ a)) ⊎ (m k ≡ some a)
  unfolding fill
  fill-cases v a e = elim (Bool-cases (key_eq key k)) [
    | inl t ↦ inl ((key_eq_iff key k).0 t, ground (arith, e, t))
    | inr t ↦ inr (ground (arith, e, t))
  ]

  fill-live : (v a : Text) → m key ≡ none → m k ≡ some a → fill m key v k ≡ some a
  unfolding fill
  fill-live v a n e = elim (Bool-cases (key_eq key k)) [
    | inl t ↦ absurd (none_some (sym n ∙ ap m ((key_eq_iff key k).0 t) ∙ e))
    | inr t ↦ ground (arith, e, t)
  ]
    where
      none_some : ◌≡◌ {A = Option Text} none (some a) → ⊥
      none_some h = cc

  invalidate-cases : (a : Text) → invalidate m key k ≡ some a → (key ≢ k) × (m k ≡ some a)
  unfolding invalidate
  invalidate-cases a e = elim (Bool-cases (key_eq key k)) [
    | inl t ↦ absurd (ground (arith, e, t))
    | inr t ↦ ((λ q. absurd (cc ((key_eq_iff key k).1 q, t))), ground (arith, e, t))
  ]

  invalidate-other : (a : Text) → key ≢ k → m k ≡ some a → invalidate m key k ≡ some a
  unfolding invalidate
  invalidate-other a n e = elim (Bool-cases (key_eq key k)) [
    | inl t ↦ absurd (n ((key_eq_iff key k).0 t))
    | inr t ↦ ground (arith, e, t)
  ]

last_member : (l : List Key) (key k : Key) → k ≡ key → Memᴰ k (l ++ (key ∷ []))
last_member [] key k e = Memᴰ.head e
last_member (x ∷ l) key k e = Memᴰ.tail (last_member l key k e)

earlier_member : (l : List Key) (key k : Key) → Memᴰ k l → Memᴰ k (l ++ (key ∷ []))
earlier_member [] key k m = elim m [ ]
earlier_member (x ∷ l) key k (Memᴰ.head e) = Memᴰ.head e
earlier_member (x ∷ l) key k (Memᴰ.tail m) = Memᴰ.tail (earlier_member l key k m)

other_member : (key k : Key) (rest : List Key) → key ≢ k → Memᴰ k (key ∷ rest) → Memᴰ k rest
other_member key k rest n (Memᴰ.head e) = absurd (n (sym e))
other_member key k rest n (Memᴰ.tail m) = m

module _ (c : Client) (join : Text → ℤ → Text) (port : ℤ) where
  pub data Step (s : System) : System → Type 0 where
    created :
        (key : Key) (ip : Text)
        → s.live key ≡ none
        → Step s (record s { live = fill s.live key ip })
    removed :
        (key : Key) (ip : Text)
        → s.live key ≡ some ip
        → Step s (record s { live = invalidate s.live key; pending = s.pending ++ (key ∷ []) })
    service_handled :
        (key : Key) (rest : List Key)
        → s.pending ≡ key ∷ rest
        → Step s (record s { cache = handle_service_event (gone key) s.cache; pending = rest })
    workspace_handled :
        (evt : WatchEvent) → Step s (record s { cache = handle_workspace_event evt s.cache })

  -- An address is that of a live Service, or the Service's deletion is still to be delivered.
  abbrev pub IsCurrent : System → Key → Text → Type 0
  IsCurrent s key addr =
      ((ip : Text) × (s.live key ≡ some ip) × (addr ≡ join ip port)) ⊎ Memᴰ key s.pending

  abbrev pub IsCoherent : System → Type 0
  IsCoherent s = (key : Key) (addr : Text) → s.cache key ≡ some addr → IsCurrent s key addr

  -- The addresses that resolutions have read and not yet put into the cache.
  abbrev pub Held : Type 0
  Held = List (Key × Text)

  -- The steps of a system with resolutions under way. Of `Resolve`, the read of a Service that is live
  -- is one step, and the fill of the cache with what was read is another, any time later.
  pub data Act : System × Held → System × Held → Type 0 where
    elsewhere : (s t : System) (held : Held) → Step s t → Act (s, held) (t, held)
    reads :
        (s : System) (held : Held) (key : Key) (ip : Text)
        → s.live key ≡ some ip
        → Act (s, held) (s, (key, join ip port) ∷ held)
    fills :
        (s : System) (before after : Held) (key : Key) (addr : Text)
        → Act
            (s, before ++ ((key, addr) ∷ after))
            (record s { cache = fill s.cache key addr }, before ++ after)

  -- A step in which no deletion of a Service is handled while a resolution holds an address of it.
  abbrev pub IsQuiet : {p q : System × Held} → Act p q → Type 0
  IsQuiet (elsewhere s t held (service_handled key rest e)) = All (λ h. key ≢ h.0) held
  IsQuiet _ = Unit {0}

  filled-IsCoherent :
      (s : System) (key : Key) (v : Text)
      → IsCurrent s key v
      → IsCoherent s
      → IsCoherent (record s { cache = fill s.cache key v })
  filled-IsCoherent s key v c h k addr e = elim (fill-cases s.cache key k v addr e) [
    | inl (q, r) ↦ subst (λ a. IsCurrent s k a) r (subst (λ x. IsCurrent s x v) q c)
    | inr r ↦ h k addr r
  ]

  forgotten :
      (evt : WatchEvent) (cache : Cache) (k : Key) (addr : Text)
      → handle_workspace_event evt cache k ≡ some addr
      → cache k ≡ some addr
  unfolding handle_workspace_event
  forgotten evt cache k addr e = elim (Bool-cases (is_deleted evt.type)) [
    | inl t ↦ by_object evt.object (rw t at e)
    | inr t ↦ rw t at e
  ]
    where
      by_object : (o : WatchObject) → forget_object o cache k ≡ some addr → cache k ≡ some addr
      by_object (service key) q = (invalidate-cases cache key k addr q).1
      by_object (named key) q = (invalidate-cases cache key k addr q).1
      by_object nameless q = q

  created-IsCurrent :
      (s : System) (key : Key) (ip : Text)
      → s.live key ≡ none
      → (k : Key) (addr : Text) → IsCurrent s k addr
      → IsCurrent (record s { live = fill s.live key ip }) k addr
  created-IsCurrent s key ip n k addr (inl (x, l, q)) = inl (x, fill-live s.live key k ip x n l, q)
  created-IsCurrent s key ip n k addr (inr m) = inr m

  removed-IsCurrent :
      (s : System) (key k : Key) (addr : Text)
      → IsCurrent s k addr
      → IsCurrent
          (record s { live = invalidate s.live key; pending = s.pending ++ (key ∷ []) })
          k
          addr
  removed-IsCurrent s key k addr (inl (x, r, q)) = elim (Bool-cases (key_eq key k)) [
    | inl t ↦ inr (last_member s.pending key k (sym ((key_eq_iff key k).0 t)))
    | inr t ↦ inl (x, invalidate-other s.live key k x (λ p. cc ((key_eq_iff key k).1 p, t)) r, q)
  ]
  removed-IsCurrent s key k addr (inr m) = inr (earlier_member s.pending key k m)

  handled-IsCurrent :
      (s : System) (key : Key) (rest : List Key)
      → s.pending ≡ key ∷ rest
      → (k : Key) (addr : Text) → key ≢ k
      → IsCurrent s k addr
      → IsCurrent
          (record s { cache = handle_service_event (gone key) s.cache; pending = rest })
          k
          addr
  handled-IsCurrent s key rest p k addr n (inl l) = inl l
  handled-IsCurrent s key rest p k addr n (inr m) = inr (other_member key k rest n (rw p at m))

  abbrev IsSound : System × Held → Type 0
  IsSound (s, held) = IsCoherent s × All (λ h. IsCurrent s h.0 h.1) held

  map-All :
      {P Q : Key × Text → Type 0} → ((h : Key × Text) → P h → Q h) → (l : Held) → All P l → All Q l
  map-All f [] h = tt
  map-All f (x ∷ l) h = (f x h.0, map-All f l h.1)

  both-All :
      {P Q R : Key × Text → Type 0}
      → ((h : Key × Text) → P h → Q h → R h)
      → (l : Held) → All P l
      → All Q l
      → All R l
  both-All f [] h k = tt
  both-All f (x ∷ l) h k = (f x h.0 k.0, both-All f l h.1 k.1)

  taken :
      (P : Key × Text → Type 0) (before after : Held) (h : Key × Text)
      → All P (before ++ (h ∷ after))
      → P h × All P (before ++ after)
  taken P [] after h a = a
  taken P (x ∷ before) after h a = let (p, rest) = taken P before after h a.1 in (p, (a.0, rest))

  act-IsSound : {p q : System × Held} → (a : Act p q) → IsQuiet a → IsSound p → IsSound q
  unfolding handle_service_event
  act-IsSound (elsewhere s t held (created key ip n)) u h = (
    (λ k addr e. created-IsCurrent s key ip n k addr (h.0 k addr e)),
    map-All (λ x c. created-IsCurrent s key ip n x.0 x.1 c) held h.1,
  )
  act-IsSound (elsewhere s t held (removed key ip l)) u h = (
    (λ k addr e. removed-IsCurrent s key k addr (h.0 k addr e)),
    map-All (λ x c. removed-IsCurrent s key x.0 x.1 c) held h.1,
  )
  act-IsSound (elsewhere s t held (service_handled key rest p)) u h = (
    (λ k addr e.
        let (n, r) = invalidate-cases s.cache key k addr e in
        handled-IsCurrent s key rest p k addr n (h.0 k addr r)),
    both-All (λ x n c. handled-IsCurrent s key rest p x.0 x.1 n c) held u h.1,
  )
  act-IsSound (elsewhere s t held (workspace_handled evt)) u h =
      ((λ k addr e. h.0 k addr (forgotten evt s.cache k addr e)), h.1)
  act-IsSound (reads s held key ip l) u h = (h.0, (inl (ip, l, refl), h.1))
  act-IsSound (fills s before after key addr) u h =
      let (c, rest) = taken (λ x. IsCurrent s x.0 x.1) before after (key, addr) h.1 in
      (filled-IsCoherent s key addr c h.0, rest)

  -- A router starts with no cached address, no resolution under way and no deletion to hear of.
  pub data Reachable : System × Held → Type 0 where
    begin :
        (live : Key → Option Text)
        → Reachable (record { live = live; cache = λ k. none; pending = [] }, [])
    next : {p q : System × Held} → Reachable p → (a : Act p q) → IsQuiet a → Reachable q

  reachable-IsSound : {p : System × Held} → Reachable p → IsSound p
  reachable-IsSound (begin live) = ((λ k addr e. absurd (cc e)), tt)
  reachable-IsSound (next r a u) = act-IsSound a u (reachable-IsSound r)

  abbrev pub address : Result Text → Result Text
  address (ok ip) = ok (join ip port)
  address (err e) = err e

  -- Once the deletions of a Service are delivered, that is with none of them pending, resolving it
  -- answers what a read of the live Service answers, its address or that there is none, whatever
  -- else came and went before, whatever resolutions are under way and whether or not the answer is
  -- from the cache, if the read at hand answers from the live Services, and if no deletion of a
  -- Service was handled between the read of it and the fill of the cache by one resolution.
  pub resolve-live :
      (s : System) (held : Held) (key : Key) (w : World c.Server)
      → Reachable (s, held)
      → ¬ Memᴰ key s.pending
      → (c.get_cluster_ip key w.server).0 ≡ answer (s.live key)
      → (resolve c join s.cache key port w).1 ≡ address (answer (s.live key))
  unfolding resolve
  resolve-live s held key w r n a = elim (Option-cases (s.cache key)) [
    | inl e ↦ rw e (by_answer (s.live key) (c.get_cluster_ip key w.server) a)
    | inr (addr, e) ↦ elim ((reachable-IsSound r).0 key addr e) [
      | inl (ip, l, q) ↦ rw (e, l, q) refl
      | inr m ↦ absurd (n m)
    ]
  ]
    where
      by_answer :
          (o : Option Text) (d : Result Text × c.Server)
          → d.0 ≡ answer o
          → (fetched c join s.cache key port (d.0, record w { server = d.1 })).1
            ≡ address (answer o)
      by_answer (some ip) (ok x, t) q = cc
      by_answer (some ip) (err x, t) q = absurd (cc q)
      by_answer none (ok x, t) q = absurd (cc q)
      by_answer none (err x, t) q = cc
