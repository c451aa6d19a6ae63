-- ===== src/Router/Serve/Proxied.antt =====
-- What proxying a request writes (internal/router/server.go, proxy).
use per_user_container_opera.Common.{
  ℕ, ◌≡◌, Option, none, some, Text, Time, ℤ, Result, ok, err, All, if_cases,
}
use per_user_container_opera.Api.Workspace.{Workspace, Key}
use per_user_container_opera.Cluster.{
  Client, World, ◌>>=◌, pure, read, Request, requests, send_status_patch,
}
use per_user_container_opera.Cluster.Delivers.{
  Delivers, Delivers-bind, Delivers-if, Delivers-read, Delivers-patch, Ends-log,
}
use per_user_container_opera.Router.Config
use per_user_container_opera.Router.Config.{Config}
use per_user_container_opera.Router.Headers.{is_upgrade_request}
use per_user_container_opera.Router.Connections.{
  Counts, published, touched, is_noted, note_activity, count_of, opened, closed, touch_activity,
  publish, open_connection, close_connection,
}
use per_user_container_opera.Router.Connections.Alive.{forward}
use per_user_container_opera.Router.Resolver.{Cache, resolve, looked_up, fetched}
use per_user_container_opera.Router.Ensure.{workspace_key}
use per_user_container_opera.Router.Serve.{
  Router, Outcome, Clock, send_on, after_open, after_resolve, proxy,
}
use per_user_container_opera.Router.Serve.Own.{IsNamed, IsUserWrite, notes, publishes}

module _ (c : Client) (named : IsNamed c) (cfg : Config) (raw user : Text) where
  abbrev place : Key
  place = workspace_key cfg user

  abbrev Asked : Request → Type 0
  Asked q = IsUserWrite cfg raw user q

  abbrev Own : Workspace → Type 0
  Own ws = ws.key ≡ place

  touch_activity-Asked : (at : Time) → Delivers Asked (λ _. Unit) (touch_activity c place at)
  unfolding touch_activity note_activity
  touch_activity-Asked at =
      Delivers-bind Asked Own (λ _. Unit) (read (c.get_workspace place)) (note_activity c place at)
        (Delivers-read Asked Own (c.get_workspace place) (named.of_get place))
        (λ ws o.
          Delivers-if Asked (λ _. Unit) (is_noted ws.status.last_activity at) (pure tt)
            (send_status_patch c ws (touched at ws) >>= (λ _. pure tt)) (λ e w h. (tt, h))
            (λ e.
              Delivers-bind Asked (λ _. Unit) (λ _. Unit) (send_status_patch c ws (touched at ws))
                (λ _. pure tt)
                (Delivers-patch c Asked (λ _. Unit) ws (touched at ws)
                  (notes at ws o (forward at ws e)) (λ s t a q. tt))
                (λ a u w h. (tt, h))))

  publish-Asked :
      (at : Time) (n : ℤ) → Delivers Asked (λ _. Unit) (publish c cfg.app cfg.pod_name at place n)
  unfolding publish
  publish-Asked at n =
      Delivers-bind Asked Own (λ _. Unit) (read (c.get_workspace place)) _
        (Delivers-read Asked Own (c.get_workspace place) (named.of_get place))
        (λ ws o.
          Delivers-bind Asked (λ _. Unit) (λ _. Unit)
            (send_status_patch c ws (published cfg.pod_name n at ws)) _
            (Delivers-patch c Asked (λ _. Unit) ws (published cfg.pod_name n at ws)
              (publishes at n ws o) (λ s t a q. tt))
            (λ a u w h. (tt, h)))

  published-Asked :
      (at : Time) (n : ℤ) (w : World c.Server)
      → All Asked (requests w.log)
      → All Asked (requests (publish c cfg.app cfg.pod_name at place n w).1.log)
  published-Asked at n w h =
      Ends-log Asked (λ (u : Unit {0}). Unit {0}) (publish c cfg.app cfg.pod_name at place n w)
        (publish-Asked at n w h)

  closing-Asked :
      (at : Time) (counts : Counts) (w : World c.Server)
      → All Asked (requests w.log)
      → All Asked (requests (close_connection c cfg.app cfg.pod_name at counts place w).2.log)
  unfolding close_connection
  closing-Asked at counts w h = published-Asked at (count_of (closed counts place) place) w h

  opening-Asked :
      (at : Time) (counts : Counts) (w : World c.Server)
      → All Asked (requests w.log)
      → All Asked (requests (open_connection c cfg.app cfg.pod_name at counts place w).2.log)
  unfolding open_connection
  opening-Asked at counts w h = published-Asked at (count_of (opened counts place) place) w h

  module _ (canonical : Text → Text) (join : Text → ℤ → Text)
      (forward_to : Text → Config.Request → c.Server → ℕ × c.Server) (clock : Clock)
      (r : Config.Request) where
    after_open-Asked :
        (cache : Cache) (addr : Text) (o : Counts × Result (Unit {0}) × World c.Server)
        → All Asked (requests o.2.log)
        → All Asked
            (requests (after_open c canonical join forward_to cfg clock r cache place addr o).2.log)
    after_open-Asked cache addr (counts, err e, w) h = h
    after_open-Asked cache addr (counts, ok u, w) h =
        closing-Asked clock.close_at counts
          (send_on c canonical join forward_to cfg clock r addr w).1 h

    after_resolve-Asked :
        (counts : Counts) (o : Cache × Result Text × World c.Server)
        → All Asked (requests o.2.log)
        → All Asked
            (requests (after_resolve c canonical join forward_to cfg clock r counts place o).2.log)
    after_resolve-Asked counts (cache, err e, w) h = h
    after_resolve-Asked counts (cache, ok addr, w) h =
        if_cases (λ (o : Router × Outcome × World c.Server). All Asked (requests o.2.log))
          (is_upgrade_request r) _ _
          (λ t.
            after_open-Asked cache addr
              (open_connection c cfg.app cfg.pod_name clock.open_at counts place w)
              (opening-Asked clock.open_at counts w h))
          (λ t. h)

    resolve-Asked :
        (o : Option Text) (cache : Cache) (w : World c.Server)
        → All Asked (requests w.log)
        → All Asked (requests (looked_up c join o cache place cfg.workspace_port w).2.log)
    resolve-Asked none cache w h = by_answer (c.get_cluster_ip place w.server)
      where
        by_answer :
            (d : Result Text × c.Server)
            → All Asked (
                requests
                  (fetched c join cache place cfg.workspace_port
                    (d.0, record w { server = d.1 })).2.log)
        by_answer (ok ip, t) = h
        by_answer (err e, t) = h
    resolve-Asked (some addr) cache w h = h

    pub proxy-Asked :
        (router : Router) (cur : Workspace) (w : World c.Server)
        → cur.key ≡ place
        → All Asked (requests w.log)
        → All Asked (requests (proxy c canonical join forward_to cfg clock r router cur w).2.log)
    unfolding proxy resolve
    proxy-Asked router cur w e h = rw e (
        after_resolve-Asked router.counts (resolve c join router.cache place cfg.workspace_port w)
          (resolve-Asked (router.cache place) router.cache w h))

  pub touched-Asked :
      (key : Key) (at : Time) (w : World c.Server)
      → key ≡ place
      → All Asked (requests w.log)
      → All Asked (requests (touch_activity c key at w).1.log)
  touched-Asked key at w e h = rw e (
      Ends-log Asked (λ (u : Unit {0}). Unit {0}) (touch_activity c place at w)
        (touch_activity-Asked at w h))
