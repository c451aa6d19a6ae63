-- ===== src/Router/Serve.antt =====
-- internal/router/server.go, ServeHTTP and proxy, of a server that NewServer makes: the way of one
-- request from its credentials to the answer.
pub mod Refused
pub mod Own
pub mod Held
pub mod Proxied
pub mod Identified
pub mod Isolation
pub mod Settled
pub mod Leak
use per_user_container_opera.Common.{
  ℕ, ◌+◌, Bool, true, false, ◌&&◌, Option, none, some, List, [], ◌∷◌, ◌++◌, Text, codes, Time,
  if◌then◌else◌, ApiError, Result, ok, err, ℤ,
}
use per_user_container_opera.Api.Workspace.{Workspace, Key}
use per_user_container_opera.Cluster.{
  Client, World, M, ◌>>=◌, ◌>>◌, then_step, pure, emit, Metric, Event, measured, identity_rejection,
  request_rejection, router_request,
}
use per_user_container_opera.Identity.Extract.{
  Header, Extracted, identity, rejected, Rejection, Reason, missing, empty, too_long, duplicate,
  invalid, reserved, extract, shared,
}
use per_user_container_opera.Identity.UserKey.{user_key}
use per_user_container_opera.Router.Config.{Config, Request}
use per_user_container_opera.Router.Auth.{check_caller_auth, shared_request}
use per_user_container_opera.Router.Headers.{apply_header_policy, is_upgrade_request, code}
use per_user_container_opera.Router.Connections.{
  Counts, touch_activity, open_connection, close_connection,
}
use per_user_container_opera.Router.Resolver.{Cache, resolve}
use per_user_container_opera.Router.Ensure.{
  classify, ensure_workspace, is_servable, cold_start_hold,
}

-- `string(rej.Reason)`.
abbrev pub reason_text : Reason → Text
reason_text missing = codes "missing"
reason_text empty = codes "empty"
reason_text too_long = codes "too_long"
reason_text duplicate = codes "duplicate"
reason_text invalid = codes "invalid"
reason_text reserved = codes "reserved"

abbrev pub is_missing : Reason → Bool
is_missing missing = true
is_missing _ = false

-- Who the request is for: a missing identity on a shared path is `identity.Shared`. Every error of
-- `Extract` is a Rejection, so the switch's default case is never taken.
abbrev pub substituted : Bool → Extracted → Extracted
substituted is_shared (identity raw) = identity raw
substituted is_shared (rejected rej) =
    if is_missing rej.reason && is_shared then identity shared else rejected rej

unfoldable pub identify : Config → Request → Extracted
identify cfg r =
    substituted (shared_request cfg r)
      (extract r.header cfg.identity_header cfg.identity_max_length)

-- What the clock answers at each place that asks it.
pub record Clock : Type 0 where
  pub enqueue_at : Time
  pub classify_at : Time
  pub wake_at : Time
  pub hold_start : Time
  pub readings : ℕ → Time
  pub cancelled : ℕ → Bool
  pub touch_at : Time
  pub open_at : Time
  pub close_at : Time

-- What becomes of a request: turned away with a status and a body, or sent to an address with the
-- status that the answer is counted under. `unsettled` is a hold that has used up its rounds.
pub data Outcome : Type 0 where
  turned_away : ℕ → Text → Outcome
  forwarded : Text → Request → ℕ → Outcome
  unsettled : Outcome

-- The request up to its proxying: the Workspace as it was ensured, and as it is servable.
pub data Decision : Type 0 where
  refuse : ℕ → Text → Decision
  proceed : Workspace → Workspace → Decision
  keep_waiting : Decision

pub record Router : Type 0 where
  pub cache : Cache
  pub counts : Counts

abbrev pub limit_reached : Text
limit_reached = codes "workspace_limit"

abbrev pub hold_expired : Text
hold_expired = codes "hold_expired"

module _ (c : Client) (sha256 : Text → Text) (cfg : Config) (clock : Clock) (rounds : ℕ) where
  -- A refusal that is counted by its reason.
  abbrev pub refuse_with : Text → M c.Server Decision
  refuse_with reason =
      emit (measured (request_rejection cfg.namespace cfg.app reason)) >> pure (refuse 503 reason)

  abbrev pub after_hold : Workspace → Option (Workspace × Bool) → M c.Server Decision
  after_hold ws none = pure keep_waiting
  after_hold ws (some (cur, true)) = pure (proceed ws cur)
  after_hold ws (some (cur, false)) = refuse_with hold_expired

  abbrev pub hold : Workspace → M c.Server (Option (Workspace × Bool))
  hold ws =
      cold_start_hold c cfg clock.wake_at clock.hold_start clock.readings clock.cancelled rounds ws

  abbrev pub when_servable : Workspace → Bool → M c.Server Decision
  when_servable ws true = pure (proceed ws ws)
  when_servable ws false = hold ws >>= after_hold ws

  abbrev pub when_classified : Workspace → Option Text → M c.Server Decision
  when_classified ws (some reason) = refuse_with reason
  when_classified ws none = is_servable c ws >>= when_servable ws

  abbrev pub when_ensured : Option Workspace → M c.Server Decision
  when_ensured none = refuse_with limit_reached
  when_ensured (some ws) = when_classified ws (classify ws clock.classify_at)

  unfoldable pub decide : Text → M c.Server Decision
  decide raw =
      ensure_workspace c cfg clock.enqueue_at raw (user_key sha256 cfg.namespace cfg.app raw)
      >>= when_ensured

-- `join` is `net.JoinHostPort`; `forward` is the reverse proxy: the status that it writes, 0 if none,
-- and what happens to the server meanwhile.
module _ (c : Client) (canonical : Text → Text) (join : Text → ℤ → Text)
    (forward : Text → Request → c.Server → ℕ × c.Server) (cfg : Config) (clock : Clock)
    (r : Request) where
  -- The request as the Director leaves it.
  abbrev pub outgoing : Request
  outgoing = record r { header = apply_header_policy canonical r.header cfg }

  abbrev pub send_on : Text → World c.Server → Outcome × World c.Server
  send_on addr w =
      let (status, s) = forward addr outgoing w.server in
      (forwarded addr outgoing (code status), record w { server = s })

  -- The deferred Close, which is set up only when Open succeeded.
  abbrev pub after_open :
      Cache
      → Key
      → Text
      → Counts × Result (Unit {0}) × World c.Server
      → Router × Outcome × World c.Server
  after_open cache key addr (counts, err e, w) =
      let (outcome, w') = send_on addr w in (record { cache = cache; counts = counts }, outcome, w')
  after_open cache key addr (counts, ok u, w) =
      let (outcome, w') = send_on addr w in
      let (left, closing, w'') =
        close_connection c cfg.app cfg.pod_name clock.close_at counts key w' in
      (record { cache = cache; counts = left }, outcome, w'')

  abbrev pub after_resolve :
      Counts → Key → Cache × Result Text × World c.Server → Router × Outcome × World c.Server
  after_resolve counts key (cache, err e, w) = (
    record { cache = cache; counts = counts },
    turned_away 502 (codes "workspace unreachable"),
    w,
  )
  after_resolve counts key (cache, ok addr, w) =
      if is_upgrade_request r
      then after_open cache key addr
          (open_connection c cfg.app cfg.pod_name clock.open_at counts key w)
      else let (outcome, w') = send_on addr w in
        (record { cache = cache; counts = counts }, outcome, w')

  unfoldable pub proxy : Router → Workspace → World c.Server → Router × Outcome × World c.Server
  proxy router ws w =
      after_resolve router.counts ws.key (resolve c join router.cache ws.key cfg.workspace_port w)

abbrev pub logged : {S : Type 0} → Event → World S → World S
logged e w = record w { log = e ∷ w.log }

module _ (c : Client) (sha256 canonical : Text → Text) (join : Text → ℤ → Text)
    (forward : Text → Request → c.Server → ℕ × c.Server) (cfg : Config) (clock : Clock)
    (rounds : ℕ) where
  -- `metrics.RecordRouterRequest` of what was recorded.
  abbrev pub counted : Outcome → World c.Server → World c.Server
  counted (turned_away status body) w =
      logged (measured (router_request cfg.namespace cfg.app status)) w
  counted (forwarded addr r status) w =
      logged (measured (router_request cfg.namespace cfg.app status)) w
  counted unsettled w = w

  abbrev pub and_count : Router × Outcome × World c.Server → Router × Outcome × World c.Server
  and_count (router, outcome, w) = (router, outcome, counted outcome w)

  abbrev pub after_decision :
      Router → Request → Result Decision × World c.Server → Router × Outcome × World c.Server
  after_decision router r (err e, w) = (router, turned_away 502 (codes "internal error"), w)
  after_decision router r (ok (refuse status body), w) = (router, turned_away status body, w)
  after_decision router r (ok keep_waiting, w) = (router, unsettled, w)
  after_decision router r (ok (proceed ws cur), w) =
      proxy c canonical join forward cfg clock r router cur
        (touch_activity c ws.key clock.touch_at w).1

  abbrev pub for_user :
      Router → Request → Extracted → World c.Server → Router × Outcome × World c.Server
  for_user router r (rejected rej) w = (
    router,
    turned_away rej.status (codes "identity rejected: " ++ reason_text rej.reason),
    logged (measured (identity_rejection cfg.namespace cfg.app (reason_text rej.reason))) w,
  )
  for_user router r (identity raw) w =
      after_decision router r (decide c sha256 cfg clock rounds raw w)

  abbrev pub authenticated :
      Router → Request → Bool → World c.Server → Router × Outcome × World c.Server
  authenticated router r false w = (router, turned_away 401 (codes "unauthorized"), w)
  authenticated router r true w = for_user router r (identify cfg r) w

  unfoldable pub serve : Router → Request → World c.Server → Router × Outcome × World c.Server
  serve router r w = and_count (authenticated router r (check_caller_auth cfg r.header) w)
