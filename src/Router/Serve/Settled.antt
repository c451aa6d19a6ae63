-- ===== src/Router/Serve/Settled.antt =====
-- How long a request is held (internal/router/server.go, coldStartHold).
use native.Mathlib.Decide.{dec_lt}
use per_user_container_opera.Common.{
  ℕ, zero, suc, ◌+◌, ◌≤◌, ◌<◌, ◌≡◌, ◌≢◌, subst, inl, inr, Bool, true, false, Option, none, some,
  Text, Time, ℤ, Result, ok, err, before, Bool-cases, arith, time_add, other_error, if_cases,
}
use per_user_container_opera.Api.Workspace.{Workspace, Key}
use per_user_container_opera.Cluster.{Client, World, M, ◌>>=◌, then_step, fail, read}
use per_user_container_opera.Identity.Extract.{Extracted, identity, rejected}
use per_user_container_opera.Identity.UserKey.{user_key}
use per_user_container_opera.Router.Auth.{check_caller_auth}
use per_user_container_opera.Router.Config.{Config, Request}
use per_user_container_opera.Router.Headers.{is_upgrade_request}
use per_user_container_opera.Router.Connections.{Counts, open_connection, touch_activity}
use per_user_container_opera.Router.Resolver.{Cache, resolve}
use per_user_container_opera.Router.Ensure.{
  classify, ensure_workspace, is_servable, end_round, hold_loop, wake, cold_start_hold,
}
use per_user_container_opera.Router.Serve.{
  Router, Outcome, turned_away, forwarded, unsettled, Clock, Decision, refuse, proceed,
  keep_waiting, decide, identify, send_on, after_open, after_resolve, proxy, after_decision,
  for_user, authenticated, serve, hold, after_hold, when_servable, when_classified, when_ensured,
}

-- The value of a computation, if there is one, has a property.
abbrev Yields : {S A : Type 0} → (A → Type 0) → Result A × World S → Type 0
Yields Q (ok a, w) = Q a
Yields Q (err e, w) = Unit

module _ {S A B : Type 0} (Q : B → Type 0) where
  Yields-step :
      (f : A → M S B)
      → ((a : A) (w : World S) → Yields Q (f a w))
      → (r : Result A × World S) → Yields Q (then_step f r)
  Yields-step f k (ok a, w) = k a w
  Yields-step f k (err e, w) = tt

abbrev IsSome : {A : Type 0} → Option A → Type 0
IsSome none = ⊥
IsSome (some a) = Unit

module _ (c : Client) (key : Key) (deadline : Time) (readings : ℕ → Time) (cancelled : ℕ → Bool)
    (n : ℕ) (over : before (readings n) deadline ≡ false) where
  -- A round ends the hold, unless the deadline is still ahead and the next round comes.
  end_round-IsSome :
      (again : M c.Server (Option (Workspace × Bool))) (i : ℕ) (cur : Workspace) (b : Bool)
      → (before (readings i) deadline ≡ true → (w : World c.Server) → Yields IsSome (again w))
      → (w : World c.Server)
      → Yields IsSome (end_round c key deadline readings cancelled again i cur b w)
  end_round-IsSome again i cur true k w = tt
  end_round-IsSome again i cur false k w = elim (Bool-cases (before (readings i) deadline)) [
    | inl e ↦ rw e (
        if_cases (λ (m : M c.Server (Option (Workspace × Bool))). Yields IsSome (m w)) (cancelled i)
          (fail other_error) again (λ t. tt) (λ t. k e w))
    | inr e ↦ rw e tt
  ]

  hold_loop-IsSome :
      (rounds i : ℕ)
      → i ≤ n
      → n < i + rounds
      → (w : World c.Server)
      → Yields IsSome (hold_loop c key deadline readings cancelled rounds i w)
  unfolding hold_loop
  hold_loop-IsSome zero i l b w = absurd (omega arith)
  hold_loop-IsSome (suc rounds) i l b w =
      Yields-step IsSome
        (λ cur.
          is_servable c cur
          >>= end_round c key deadline readings cancelled
              (hold_loop c key deadline readings cancelled rounds (suc i)) i cur)
        (λ cur v.
          Yields-step IsSome
            (end_round c key deadline readings cancelled
              (hold_loop c key deadline readings cancelled rounds (suc i)) i cur)
            (λ served u.
              end_round-IsSome (hold_loop c key deadline readings cancelled rounds (suc i)) i cur
                served (λ e. hold_loop-IsSome rounds (suc i) (later e) (omega arith)) u)
            (is_servable c cur v))
        (read (c.get_workspace key) w)
    where
      later : before (readings i) deadline ≡ true → suc i ≤ n
      later e = elim (dec_lt i n) [ yes p ↦ omega arith | no q ↦ absurd (same (omega arith) e) ]
        where
          same : i ≡ n → before (readings i) deadline ≡ true → ⊥
          same q t = cc

abbrev IsSettled : Decision → Type 0
IsSettled (refuse status body) = Unit
IsSettled (proceed ws cur) = Unit
IsSettled keep_waiting = ⊥

abbrev IsAnswer : Outcome → Type 0
IsAnswer (turned_away status body) = Unit
IsAnswer (forwarded addr out status) = Unit
IsAnswer unsettled = ⊥

module _ (c : Client) (sha256 canonical : Text → Text) (join : Text → ℤ → Text)
    (forward : Text → Request → c.Server → ℕ × c.Server) (cfg : Config) (clock : Clock)
    (rounds n : ℕ) where
  module _
      (over : before (clock.readings n) (time_add clock.hold_start cfg.cold_start_hold) ≡ false)
      (enough : n < rounds) where
    hold-IsSome :
        (ws : Workspace) (w : World c.Server) → Yields IsSome (hold c sha256 cfg clock rounds ws w)
    unfolding cold_start_hold
    hold-IsSome ws w =
        Yields-step IsSome
          (λ (v : Workspace).
            hold_loop c ws.key (time_add clock.hold_start cfg.cold_start_hold) clock.readings
              clock.cancelled rounds 0)
          (λ v u.
            hold_loop-IsSome c ws.key (time_add clock.hold_start cfg.cold_start_hold) clock.readings
              clock.cancelled n over rounds 0 (omega arith) (omega arith) u)
          (wake c clock.wake_at ws w)

    after_hold-IsSettled :
        (ws : Workspace) (r : Result (Option (Workspace × Bool)) × World c.Server)
        → Yields IsSome r
        → Yields IsSettled (then_step (after_hold c sha256 cfg clock rounds ws) r)
    after_hold-IsSettled ws (ok none, w) h = h
    after_hold-IsSettled ws (ok (some (cur, true)), w) h = tt
    after_hold-IsSettled ws (ok (some (cur, false)), w) h = tt
    after_hold-IsSettled ws (err e, w) h = tt

    when_servable-IsSettled :
        (ws : Workspace) (b : Bool) (w : World c.Server)
        → Yields IsSettled (when_servable c sha256 cfg clock rounds ws b w)
    when_servable-IsSettled ws true w = tt
    when_servable-IsSettled ws false w =
        after_hold-IsSettled ws (hold c sha256 cfg clock rounds ws w) (hold-IsSome ws w)

    when_ensured-IsSettled :
        (found : Option Workspace) (w : World c.Server)
        → Yields IsSettled (when_ensured c sha256 cfg clock rounds found w)
    when_ensured-IsSettled none w = tt
    when_ensured-IsSettled (some ws) w = by_reason (classify ws clock.classify_at)
      where
        by_reason :
            (reason : Option Text)
            → Yields IsSettled (when_classified c sha256 cfg clock rounds ws reason w)
        by_reason none =
            Yields-step IsSettled (when_servable c sha256 cfg clock rounds ws)
              (when_servable-IsSettled ws) (is_servable c ws w)
        by_reason (some reason) = tt

    decide-IsSettled :
        (raw : Text) (w : World c.Server)
        → Yields IsSettled (decide c sha256 cfg clock rounds raw w)
    unfolding decide
    decide-IsSettled raw w =
        Yields-step IsSettled (when_ensured c sha256 cfg clock rounds) when_ensured-IsSettled (
          ensure_workspace c cfg clock.enqueue_at raw (user_key sha256 cfg.namespace cfg.app raw) w)

    module _ (router : Router) (r : Request) where
      resolved-IsAnswer :
          (key : Key) (o : Cache × Result Text × World c.Server)
          → IsAnswer (after_resolve c canonical join forward cfg clock r router.counts key o).1
      resolved-IsAnswer key (cache, err e, w) = tt
      resolved-IsAnswer key (cache, ok addr, w) =
          if_cases (λ (o : Router × Outcome × World c.Server). IsAnswer o.1) (is_upgrade_request r)
            (after_open c canonical join forward cfg clock r cache key addr
              (open_connection c cfg.app cfg.pod_name clock.open_at router.counts key w))
            (let (outcome, w') = send_on c canonical join forward cfg clock r addr w in
              (record { cache = cache; counts = router.counts }, outcome, w'))
            (λ t.
              opened_answers
                (open_connection c cfg.app cfg.pod_name clock.open_at router.counts key w))
            (λ t. tt)
        where
          opened_answers :
              (o : Counts × Result (Unit {0}) × World c.Server)
              → IsAnswer (after_open c canonical join forward cfg clock r cache key addr o).1
          opened_answers (counts, ok u, v) = tt
          opened_answers (counts, err e, v) = tt

      decided-IsAnswer :
          (d : Result Decision × World c.Server)
          → Yields IsSettled d
          → IsAnswer (after_decision c sha256 canonical join forward cfg clock rounds router r d).1
      unfolding proxy
      decided-IsAnswer (err e, w) h = tt
      decided-IsAnswer (ok (refuse status body), w) h = tt
      decided-IsAnswer (ok keep_waiting, w) h = h
      decided-IsAnswer (ok (proceed ws cur), w) h = resolved-IsAnswer cur.key (
          resolve c join router.cache cur.key cfg.workspace_port
            (touch_activity c ws.key clock.touch_at w).1)

      identified-IsAnswer :
          (x : Extracted) (w : World c.Server)
          → IsAnswer (for_user c sha256 canonical join forward cfg clock rounds router r x w).1
      identified-IsAnswer (rejected rej) w = tt
      identified-IsAnswer (identity raw) w =
          decided-IsAnswer (decide c sha256 cfg clock rounds raw w) (decide-IsSettled raw w)

      authenticated-IsAnswer :
          (b : Bool) (w : World c.Server)
          → IsAnswer (authenticated c sha256 canonical join forward cfg clock rounds router r b w).1
      authenticated-IsAnswer false w = tt
      authenticated-IsAnswer true w = identified-IsAnswer (identify cfg r) w

      -- Every request is answered: if the clock reads the end of the hold or later by the n-th round,
      -- more than n rounds are enough, whatever the server answers and whoever calls.
      pub serve-settled :
          (w : World c.Server)
          → (serve c sha256 canonical join forward cfg clock rounds router r w).1 ≢ unsettled
      unfolding serve
      serve-settled w e =
          subst IsAnswer e (authenticated-IsAnswer (check_caller_auth cfg r.header) w)
