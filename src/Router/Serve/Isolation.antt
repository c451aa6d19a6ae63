-- ===== src/Router/Serve/Isolation.antt =====
-- Whose Workspace a request reaches and writes to (internal/router/server.go, ServeHTTP).
use per_user_container_opera.Common.{
  ℕ, ◌≡◌, refl, subst, inl, inr, Bool, true, false, [], Text, ℤ, Result, ok, err, All, if_cases,
  Bool-cases,
}
use per_user_container_opera.Api.Workspace.{Workspace, Key}
use per_user_container_opera.Cluster.{Client, World, Request, requests}
use per_user_container_opera.Cluster.Keeps.{Ends}
use per_user_container_opera.Identity.Extract.{identity}
use per_user_container_opera.Identity.UserKey.{user_key}
use per_user_container_opera.Router.Auth.{check_caller_auth}
use per_user_container_opera.Router.Config
use per_user_container_opera.Router.Config.{Config}
use per_user_container_opera.Router.Headers.{is_upgrade_request, apply_header_policy}
use per_user_container_opera.Router.Connections.{Counts, touch_activity, open_connection}
use per_user_container_opera.Router.Resolver.{Cache, resolve}
use per_user_container_opera.Router.Ensure.{workspace_key}
use per_user_container_opera.Router.Serve.{
  Router, Outcome, turned_away, forwarded, unsettled, Clock, Decision, refuse, proceed,
  keep_waiting, decide, identify, outgoing, send_on, after_open, after_resolve, proxy, and_count,
  after_decision, authenticated, serve,
}
use per_user_container_opera.Router.Serve.Own.{IsNamed, IsUserWrite}
use per_user_container_opera.Router.Serve.Proxied.{proxy-Asked, touched-Asked}
use per_user_container_opera.Router.Serve.Held.{IsDecided, decide-Decided}

module _ (c : Client) (named : IsNamed c) (sha256 canonical : Text → Text) (join : Text → ℤ → Text)
    (forward_to : Text → Config.Request → c.Server → ℕ × c.Server) (cfg : Config) (clock : Clock)
    (rounds : ℕ) where
  abbrev pub answered : Router → Config.Request → World c.Server → Router × Outcome × World c.Server
  answered router r w = serve c sha256 canonical join forward_to cfg clock rounds router r w

  module _ (router : Router) (r : Config.Request) (raw : Text) where
    abbrev user_of : Text
    user_of = user_key sha256 cfg.namespace cfg.app raw

    abbrev UserWrite : Request → Type 0
    UserWrite q = IsUserWrite cfg raw user_of q

    abbrev outgoing_for : Config.Request
    outgoing_for = outgoing c canonical join forward_to cfg clock r

    -- What is sent on is the caller's request under the header policy, to the address of a key.
    abbrev IsSent : Key → Outcome → Type 0
    IsSent key (turned_away status body) = Unit
    IsSent key unsettled = Unit
    IsSent key (forwarded addr out status) =
        (out ≡ outgoing_for)
        × ((v : World c.Server) × ((resolve c join router.cache key cfg.workspace_port v).1
              ≡ ok addr))

    after_open-IsSent :
        (key : Key) (cache : Cache) (addr : Text) (o : Counts × Result (Unit {0}) × World c.Server)
        (v : World c.Server)
        → (resolve c join router.cache key cfg.workspace_port v).1 ≡ ok addr
        → IsSent key (after_open c canonical join forward_to cfg clock r cache key addr o).1
    after_open-IsSent key cache addr (counts, err e, w) v q = (refl, (v, q))
    after_open-IsSent key cache addr (counts, ok u, w) v q = (refl, (v, q))

    after_resolve-IsSent :
        (key : Key) (v : World c.Server) (o : Cache × Result Text × World c.Server)
        → (resolve c join router.cache key cfg.workspace_port v).1 ≡ o.1
        → IsSent key (after_resolve c canonical join forward_to cfg clock r router.counts key o).1
    after_resolve-IsSent key v (cache, err e, w) q = tt
    after_resolve-IsSent key v (cache, ok addr, w) q =
        if_cases (λ (o : Router × Outcome × World c.Server). IsSent key o.1) (is_upgrade_request r)
          (after_open c canonical join forward_to cfg clock r cache key addr
            (open_connection c cfg.app cfg.pod_name clock.open_at router.counts key w))
          (let (outcome, w') = send_on c canonical join forward_to cfg clock r addr w in
            (record { cache = cache; counts = router.counts }, outcome, w'))
          (λ t.
            after_open-IsSent key cache addr
              (open_connection c cfg.app cfg.pod_name clock.open_at router.counts key w) v q)
          (λ t. (refl, (v, q)))

    proxy-IsSent :
        (cur : Workspace) (w : World c.Server)
        → IsSent cur.key (proxy c canonical join forward_to cfg clock r router cur w).1
    unfolding proxy
    proxy-IsSent cur w =
        after_resolve-IsSent cur.key w (resolve c join router.cache cur.key cfg.workspace_port w)
          refl

    decided-IsSent :
        (d : Result Decision × World c.Server)
        → Ends UserWrite (IsDecided cfg user_of) d
        → IsSent
            (workspace_key cfg user_of)
            (after_decision c sha256 canonical join forward_to cfg clock rounds router r d).1
    decided-IsSent (err e, w) h = tt
    decided-IsSent (ok (refuse status body), w) h = tt
    decided-IsSent (ok keep_waiting, w) h = tt
    decided-IsSent (ok (proceed ws cur), w) h =
        subst
          (λ k.
            IsSent k
              (proxy c canonical join forward_to cfg clock r router cur
                (touch_activity c ws.key clock.touch_at w).1).1)
          h.0.1 (proxy-IsSent cur (touch_activity c ws.key clock.touch_at w).1)

    decided-UserWrite :
        (d : Result Decision × World c.Server)
        → Ends UserWrite (IsDecided cfg user_of) d
        → All UserWrite (
            requests
              (and_count c sha256 canonical join forward_to cfg clock rounds (
                after_decision c sha256 canonical join forward_to cfg clock rounds router r
                  d)).2.log)
    decided-UserWrite (err e, w) h = h
    decided-UserWrite (ok (refuse status body), w) h = h.1
    decided-UserWrite (ok keep_waiting, w) h = h.1
    decided-UserWrite (ok (proceed ws cur), w) h =
        counted_log
          (proxy c canonical join forward_to cfg clock r router cur
            (touch_activity c ws.key clock.touch_at w).1)
          (proxy-Asked c named cfg raw user_of canonical join forward_to clock r router cur
            (touch_activity c ws.key clock.touch_at w).1 h.0.1
            (touched-Asked c named cfg raw user_of ws.key clock.touch_at w h.0.0 h.1))
      where
        counted_log :
            (o : Router × Outcome × World c.Server)
            → All UserWrite (requests o.2.log)
            → All UserWrite
                (requests (and_count c sha256 canonical join forward_to cfg clock rounds o).2.log)
        counted_log (router', turned_away status body, v) k = k
        counted_log (router', forwarded addr out status, v) k = k
        counted_log (router', unsettled, v) k = k

    abbrev fresh : c.Server → World c.Server
    fresh s = record { server = s; log = [] }

    -- Every write that a request with an identity leads to is of the Workspace of that identity, and
    -- one of those that a user's request may make, if the server answers with objects of the names
    -- that it is asked for.
    pub serve-IsUserWrite :
        (s : c.Server)
        → identify cfg r ≡ identity raw
        → All UserWrite (requests (answered router r (fresh s)).2.log)
    unfolding serve
    serve-IsUserWrite s e = by_credentials (check_caller_auth cfg r.header)
      where
        by_credentials :
            (b : Bool)
            → All UserWrite (
                requests
                  (and_count c sha256 canonical join forward_to cfg clock rounds (
                    authenticated c sha256 canonical join forward_to cfg clock rounds router r b
                      (fresh s))).2.log)
        by_credentials false = tt
        by_credentials true = rw e (
            decided-UserWrite (decide c sha256 cfg clock rounds raw (fresh s))
              (decide-Decided c named sha256 cfg clock rounds raw (fresh s) tt))

    serve-IsSent :
        (s : c.Server)
        → identify cfg r ≡ identity raw
        → IsSent (workspace_key cfg user_of) (answered router r (fresh s)).1
    unfolding serve
    serve-IsSent s e = by_credentials (check_caller_auth cfg r.header)
      where
        by_credentials :
            (b : Bool)
            → IsSent
                (workspace_key cfg user_of)
                (and_count c sha256 canonical join forward_to cfg clock rounds (
                  authenticated c sha256 canonical join forward_to cfg clock rounds router r b
                    (fresh s))).1
        by_credentials false = tt
        by_credentials true = rw e (
            decided-IsSent (decide c sha256 cfg clock rounds raw (fresh s))
              (decide-Decided c named sha256 cfg clock rounds raw (fresh s) tt))

    credentials :
        (s : c.Server) (addr : Text) (out : Config.Request) (status : ℕ)
        → (answered router r (fresh s)).1 ≡ forwarded addr out status
        → check_caller_auth cfg r.header ≡ true
    unfolding serve
    credentials s addr out status f = elim (Bool-cases (check_caller_auth cfg r.header)) [
      | inl e ↦ e
      | inr e ↦ absurd (cc (rw e at f))
    ]

    -- Whoever calls, a request that is sent on is that of an authenticated caller, goes out as the
    -- header policy leaves it, and goes to the address that the Workspace of the identity resolves
    -- to, of this namespace and app, if the server answers with objects of the names that it is asked
    -- for: no answer of the server leads to the Workspace of another.
    pub serve-IsOwn :
        (s : c.Server) (addr : Text) (out : Config.Request) (status : ℕ)
        → identify cfg r ≡ identity raw
        → (answered router r (fresh s)).1 ≡ forwarded addr out status
        → (check_caller_auth cfg r.header ≡ true)
          × (out ≡ record r { header = apply_header_policy canonical r.header cfg })
          × ((v : World c.Server) × ((resolve c join router.cache
                  (workspace_key cfg user_of)
                  cfg.workspace_port
                  v).1
                ≡ ok addr))
    serve-IsOwn s addr out status e f =
        let sent = subst (IsSent (workspace_key cfg user_of)) f (serve-IsSent s e) in
        (credentials s addr out status f, sent.0, sent.1)
