-- ===== src/Router/Serve/Leak.antt =====
-- The count of connections after a request that upgraded its connection has ended
-- (internal/router/server.go, proxy, and internal/router/connections.go).
use per_user_container_opera.Common.{
  ℕ, suc, ◌<◌, ◌≡◌, ap, ◌∙◌, true, Text, ℤ, pos, Result, ok, err, arith,
}
use per_user_container_opera.Api.Workspace.{Workspace, Key}
use per_user_container_opera.Cluster.{Client, World}
use per_user_container_opera.Router.Config.{Config, Request}
use per_user_container_opera.Router.Headers.{is_upgrade_request}
use per_user_container_opera.Router.Connections.{
  Counts, count_of, opened, open_connection, close_connection, publish,
}
use per_user_container_opera.Router.Connections.Counts.{closed-opened, count_of-opened}
use per_user_container_opera.Router.Resolver.{Cache, resolve}
use per_user_container_opera.Router.Serve.{Router, Clock, after_open, proxy}

-- Once a connection is over, whether its opening was published decides what is still counted.
abbrev pub still_counted : Result (Unit {0}) → ℕ → ℤ
still_counted (ok u) n = pos n
still_counted (err e) n = pos (suc n)

module _ (c : Client) (canonical : Text → Text) (join : Text → ℤ → Text)
    (forward : Text → Request → c.Server → ℕ × c.Server) (cfg : Config) (clock : Clock)
    (r : Request) where
  after_open-count :
      (cache : Cache) (key : Key) (addr : Text) (counts : Counts) (n : ℕ)
      (o : Result (Unit {0}) × World c.Server)
      → count_of counts key ≡ pos n
      → suc n < 2147483648
      → count_of
          (after_open c canonical join forward cfg clock r cache key addr
            (opened counts key, o.0, o.1)).0.counts
          key
        ≡ still_counted o.0 n
  unfolding close_connection
  after_open-count cache key addr counts n (ok u, w) e b =
      closed-opened counts key n e (omega arith) ∙ e
  after_open-count cache key addr counts n (err d, w) e b =
      count_of-opened counts key n e (omega arith) ∙ ap pos (omega arith)

  -- When a request that upgrades its connection has run its course, its Workspace's count is as
  -- before if the opening could be published, and one too many if it could not: an opening that fails
  -- to be published is counted and never uncounted. This is so for every Workspace that resolves, if
  -- the count was at least 0 and not near the largest int32.
  pub proxy-count :
      (router : Router) (ws : Workspace) (n : ℕ) (cache : Cache) (addr : Text)
      (w v : World c.Server)
      → is_upgrade_request r ≡ true
      → resolve c join router.cache ws.key cfg.workspace_port w ≡ (cache, ok addr, v)
      → count_of router.counts ws.key ≡ pos n
      → suc n < 2147483648
      → count_of (proxy c canonical join forward cfg clock r router ws w).0.counts ws.key
        ≡ still_counted
            (open_connection c cfg.app cfg.pod_name clock.open_at router.counts ws.key v).1
            n
  unfolding proxy open_connection
  proxy-count router ws n cache addr w v u a e b =
      rw (a, u)
        (after_open-count cache ws.key addr router.counts n
          (publish c cfg.app cfg.pod_name clock.open_at ws.key
            (count_of (opened router.counts ws.key) ws.key) v)
          e b)
