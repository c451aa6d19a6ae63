-- ===== src/Router/Serve/Held.antt =====
-- The wait for a cold start and the decision on a request (internal/router/server.go, coldStartHold
-- and ServeHTTP): which Workspace they are about.
use per_user_container_opera.Common.{
  ℕ, zero, suc, ◌≡◌, sym, subst, time_add, Bool, true, false, not, Option, none, some, Text, Time,
  if◌then◌else◌, is_some, before, other_error,
}
use per_user_container_opera.Api.Workspace.{Workspace, Key, phase_eq, ready}
use per_user_container_opera.Cluster.{
  Client, M, ◌>>=◌, pure, fail, read, Request, send_status_patch,
}
use per_user_container_opera.Cluster.Delivers.{
  Delivers, Delivers-bind, Delivers-if, Delivers-read, Delivers-patch,
}
use per_user_container_opera.Identity.UserKey.{user_key}
use per_user_container_opera.Router.Config.{Config}
use per_user_container_opera.Router.Resolver.{has_endpoints}
use per_user_container_opera.Router.Ensure.{
  classify, workspace_key, with_wake, ensure_workspace, is_servable, end_round, hold_loop, wake,
  cold_start_hold,
}
use per_user_container_opera.Router.Serve.Own.{
  IsNamed, IsUserWrite, wakes, not_set, IsOwnIfAny, read-IsOwn, ensure_workspace-IsOwn,
}
use per_user_container_opera.Router.Serve.{
  Clock, Decision, refuse, proceed, keep_waiting, after_hold, hold, when_servable, when_classified,
  when_ensured, decide,
}

module _ (c : Client) (named : IsNamed c) (cfg : Config) (raw user : Text) where
  abbrev place : Key
  place = workspace_key cfg user

  abbrev Own : Workspace → Type 0
  Own ws = ws.key ≡ place

  abbrev Writes : Request → Type 0
  Writes q = IsUserWrite cfg raw user q

  is_servable-Keeps : (ws : Workspace) → Delivers Writes (λ _. Unit) (is_servable c ws)
  unfolding is_servable has_endpoints
  is_servable-Keeps ws =
      Delivers-if Writes (λ _. Unit) (phase_eq ws.status.phase ready) (has_endpoints c ws.key)
        (pure false)
        (λ t.
          Delivers-bind Writes (λ _. Unit) (λ _. Unit) (read (c.list_endpoint_slices ws.key)) _
            (Delivers-read Writes (λ _. Unit) (c.list_endpoint_slices ws.key) (λ s u a q. tt))
            (λ a u w h. (tt, h)))
        (λ t w h. (tt, h))

  abbrev IsHeld : Option (Workspace × Bool) → Type 0
  IsHeld none = Unit
  IsHeld (some (ws, b)) = Own ws

  module _ (deadline : Time) (readings : ℕ → Time) (cancelled : ℕ → Bool) where
    end_round-IsHeld :
        (again : M c.Server (Option (Workspace × Bool))) (i : ℕ) (cur : Workspace) (b : Bool)
        → Delivers Writes IsHeld again
        → Own cur
        → Delivers Writes IsHeld (end_round c place deadline readings cancelled again i cur b)
    end_round-IsHeld again i cur true k o = λ w h. (o, h)
    end_round-IsHeld again i cur false k o =
        Delivers-if Writes IsHeld (not (before (readings i) deadline)) (pure (some (cur, false)))
          (if cancelled i then fail other_error else again) (λ t w h. (o, h))
          (λ t.
            Delivers-if Writes IsHeld (cancelled i) (fail other_error) again (λ u w h. h) (λ u. k))

    hold_loop-IsHeld :
        (rounds i : ℕ)
        → Delivers Writes IsHeld (hold_loop c place deadline readings cancelled rounds i)
    unfolding hold_loop
    hold_loop-IsHeld zero i = λ w h. (tt, h)
    hold_loop-IsHeld (suc rounds) i =
        let again = hold_loop c place deadline readings cancelled rounds (suc i) in
        Delivers-bind Writes Own IsHeld (read (c.get_workspace place))
          (λ cur.
            is_servable c cur
            >>= (λ b. end_round c place deadline readings cancelled again i cur b))
          (read-IsOwn c named cfg raw user)
          (λ cur o.
            Delivers-bind Writes (λ _. Unit) IsHeld (is_servable c cur)
              (λ b. end_round c place deadline readings cancelled again i cur b)
              (is_servable-Keeps cur)
              (λ b u. end_round-IsHeld again i cur b (hold_loop-IsHeld rounds (suc i)) o))

  wake-Keeps : (now : Time) (ws : Workspace) → Own ws → Delivers Writes (λ _. Unit) (wake c now ws)
  unfolding wake
  wake-Keeps now ws o =
      Delivers-if Writes (λ _. Unit) (is_some ws.status.wake_requested_at) (pure ws)
        (send_status_patch c ws (with_wake now ws)) (λ e w h. (tt, h))
        (λ e.
          Delivers-patch c Writes (λ _. Unit) ws (with_wake now ws)
            (wakes now ws o (not_set ws.status.wake_requested_at e)) (λ s t a q. tt))

-- A decision to proceed is about the user's Workspace.
abbrev pub IsDecided : Config → Text → Decision → Type 0
IsDecided cfg user (proceed ws cur) =
    (ws.key ≡ workspace_key cfg user) × (cur.key ≡ workspace_key cfg user)
IsDecided cfg user (refuse status body) = Unit
IsDecided cfg user keep_waiting = Unit

module _ (c : Client) (named : IsNamed c) (sha256 : Text → Text) (cfg : Config) (clock : Clock)
    (rounds : ℕ) (raw : Text) where
  abbrev user : Text
  user = user_key sha256 cfg.namespace cfg.app raw

  abbrev Asked : Request → Type 0
  Asked q = IsUserWrite cfg raw user q

  abbrev Decided : Decision → Type 0
  Decided d = IsDecided cfg user d

  abbrev Held : Option (Workspace × Bool) → Type 0
  Held h = IsHeld c named cfg raw user h

  hold-IsHeld :
      (ws : Workspace)
      → ws.key ≡ workspace_key cfg user
      → Delivers Asked Held (hold c sha256 cfg clock rounds ws)
  unfolding cold_start_hold
  hold-IsHeld ws o =
      subst
        (λ k. Delivers Asked Held (
          wake c clock.wake_at ws >>= (λ _.
            hold_loop c k (time_add clock.hold_start cfg.cold_start_hold) clock.readings
              clock.cancelled rounds 0)))
        (sym o)
        (Delivers-bind Asked (λ _. Unit) Held (wake c clock.wake_at ws)
          (λ _.
            hold_loop c (workspace_key cfg user) (time_add clock.hold_start cfg.cold_start_hold)
              clock.readings clock.cancelled rounds 0)
          (wake-Keeps c named cfg raw user clock.wake_at ws o)
          (λ _ u.
            hold_loop-IsHeld c named cfg raw user (time_add clock.hold_start cfg.cold_start_hold)
              clock.readings clock.cancelled rounds 0))

  when_servable-Decided :
      (ws : Workspace) (b : Bool)
      → ws.key ≡ workspace_key cfg user
      → Delivers Asked Decided (when_servable c sha256 cfg clock rounds ws b)
  when_servable-Decided ws true o = λ w h. ((o, o), h)
  when_servable-Decided ws false o =
      Delivers-bind Asked Held Decided (hold c sha256 cfg clock rounds ws)
        (after_hold c sha256 cfg clock rounds ws) (hold-IsHeld ws o) after
    where
      after :
          (h : Option (Workspace × Bool))
          → Held h
          → Delivers Asked Decided (after_hold c sha256 cfg clock rounds ws h)
      after none k = λ w h. (tt, h)
      after (some (cur, true)) k = λ w h. ((o, k), h)
      after (some (cur, false)) k = λ w h. (tt, h)

  when_ensured-Decided :
      (found : Option Workspace)
      → IsOwnIfAny c named cfg raw user found
      → Delivers Asked Decided (when_ensured c sha256 cfg clock rounds found)
  when_ensured-Decided none o = λ w h. (tt, h)
  when_ensured-Decided (some ws) o = by_reason (classify ws clock.classify_at)
    where
      by_reason :
          (reason : Option Text)
          → Delivers Asked Decided (when_classified c sha256 cfg clock rounds ws reason)
      by_reason none =
          Delivers-bind Asked (λ _. Unit) Decided (is_servable c ws)
            (when_servable c sha256 cfg clock rounds ws) (is_servable-Keeps c named cfg raw user ws)
            (λ b u. when_servable-Decided ws b o)
      by_reason (some reason) = λ w h. (tt, h)

  -- The decision on a request of a user is about that user's Workspace, and so is every write on the
  -- way to it.
  pub decide-Decided : Delivers Asked Decided (decide c sha256 cfg clock rounds raw)
  unfolding decide
  decide-Decided =
      Delivers-bind Asked (λ o. IsOwnIfAny c named cfg raw user o) Decided
        (ensure_workspace c cfg clock.enqueue_at raw user) (when_ensured c sha256 cfg clock rounds)
        (ensure_workspace-IsOwn c named cfg raw user clock.enqueue_at) when_ensured-Decided
