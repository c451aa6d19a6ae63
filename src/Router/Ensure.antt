-- ===== src/Router/Ensure.antt =====
-- internal/router/server.go, ensureWorkspace to coldStartHold: that the caller's Workspace exists and
-- has its place in the queue, whether it can be served, and the wait until it can. Each `now` is what
-- the clock answers at that place.
use per_user_container_opera.Common.{
  ℕ, zero, suc, Bool, true, false, not, ◌&&◌, Option, none, some, List, [], ◌∷◌, Text, codes, Time,
  ℤ, pos, ltb_ℤ, leb_ℤ, wrap32, before, time_add, length, if◌then◌else◌, is_some, text_eq, ApiError,
  is_not_found, is_already_exists, other_error, Result, ok, err,
}
use per_user_container_opera.Api.Workspace.{
  Workspace, WorkspaceStatus, Key, ready, unset, phase_eq, label_app, label_user_key,
  ann_user_display, waiting_rwop_conflict,
}
use per_user_container_opera.Cluster.{
  Client, World, M, ◌>>=◌, pure, fail, read, send_status_patch, send_create_workspace,
}
use per_user_container_opera.Identity.UserKey.{child_name}
use per_user_container_opera.Router.Config.{Config}
use per_user_container_opera.Router.Resolver.{has_endpoints}

abbrev pub reject_terminating : Text
reject_terminating = codes "terminating"

abbrev pub reject_backoff : Text
reject_backoff = codes "backoff"

abbrev pub reject_rwop_conflict : Text
reject_rwop_conflict = codes "rwop_conflict"

abbrev pub is_backing_off : Option Time → Time → Bool
is_backing_off none t = false
is_backing_off (some until) t = before t until

-- `classify`: the reason to turn the request away, if there is one.
unfoldable pub classify : Workspace → Time → Option Text
classify ws now =
    if is_some ws.deletion_timestamp
    then some reject_terminating
    else if is_backing_off ws.status.backoff_until now
    then some reject_backoff
    else if text_eq ws.status.waiting_reason waiting_rwop_conflict
    then some reject_rwop_conflict
    else none

abbrev pub zero_status : WorkspaceStatus
zero_status = record {
  phase = unset;
  scaled_down = false;
  last_activity = none;
  connections = [];
  wake_requested_at = none;
  enqueued_at = none;
  consecutive_failures = pos 0;
  backoff_until = none;
  start_deadline = none;
  waiting_reason = [];
  largest_observed_size = none;
  conditions = [];
  pod_ref = [];
  service_ref = [];
  pvc_ref = [];
}

-- The key of the Workspace of a user.
abbrev pub workspace_key : Config → Text → Key
workspace_key cfg user = record { namespace = cfg.namespace; name = child_name cfg.app user }

-- The Workspace to create, with the fields that the server sets at their zero values.
unfoldable pub new_workspace : Config → Text → Text → Workspace
new_workspace cfg raw user = record {
  key = workspace_key cfg user;
  resource_version = [];
  generation = pos 0;
  labels = (label_app, cfg.app) ∷ (label_user_key, user) ∷ [];
  annotations = (ann_user_display, raw) ∷ [];
  finalizers = [];
  creation_timestamp = pos 0;
  deletion_timestamp = none;
  spec = record { app_ref = cfg.app; user_key = user };
  status = zero_status;
}

abbrev pub enqueued : Time → Workspace → Workspace
enqueued now ws = record ws { status = record (ws.status) { enqueued_at = some now } }

abbrev pub with_wake : Time → Workspace → Workspace
with_wake now ws = record ws { status = record (ws.status) { wake_requested_at = some now } }

-- `s.Cfg.MaxWorkspaces > 0 && int32(len(list.Items)) >= s.Cfg.MaxWorkspaces`.
unfoldable pub at_limit : ℤ → List Workspace → Bool
at_limit max_workspaces list =
    ltb_ℤ (pos 0) max_workspaces && leb_ℤ max_workspaces (wrap32 (pos (length list)))

module _ (c : Client) where
  unfoldable pub ensure_enqueued_at : Time → Workspace → M c.Server Workspace
  ensure_enqueued_at now ws =
      if is_some ws.status.enqueued_at then pure ws else send_status_patch c ws (enqueued now ws)

  -- `none` is errWorkspaceLimit.
  module _ (cfg : Config) (now : Time) (raw user : Text) where
    abbrev pub queue : Workspace → M c.Server (Option Workspace)
    queue ws = ensure_enqueued_at now ws >>= (λ queued. pure (some queued))

    abbrev pub create_failed : ApiError → M c.Server (Option Workspace)
    create_failed e =
        if is_already_exists e
        then read (c.get_workspace (workspace_key cfg user)) >>= queue
        else fail e

    abbrev pub after_user_create :
        Result Workspace × World c.Server → Result (Option Workspace) × World c.Server
    after_user_create (ok ws, w) = queue ws w
    after_user_create (err e, w) = create_failed e w

    unfoldable pub create_user : M c.Server (Option Workspace)
    unfolding ensure_enqueued_at
    create_user w = after_user_create (send_create_workspace c (new_workspace cfg raw user) w)

    unfoldable pub create_below_limit : List Workspace → M c.Server (Option Workspace)
    create_below_limit list = if at_limit cfg.max_workspaces list then pure none else create_user

    abbrev pub not_existing : ApiError → M c.Server (Option Workspace)
    not_existing e =
        if is_not_found e
        then read (c.list_workspaces cfg.namespace cfg.app) >>= create_below_limit
        else fail e

    abbrev pub after_get :
        Result Workspace × World c.Server → Result (Option Workspace) × World c.Server
    after_get (ok ws, w) = queue ws w
    after_get (err e, w) = not_existing e w

    unfoldable pub ensure_workspace : M c.Server (Option Workspace)
    unfolding create_below_limit ensure_enqueued_at
    ensure_workspace w = after_get (read (c.get_workspace (workspace_key cfg user)) w)

  unfoldable pub is_servable : Workspace → M c.Server Bool
  is_servable ws = if phase_eq ws.status.phase ready then has_endpoints c ws.key else pure false

  -- The readings of the clock in the rounds of the hold, and whether the context is done when a
  -- round's wait ends.
  module _ (key : Key) (deadline : Time) (readings : ℕ → Time) (cancelled : ℕ → Bool) where
    -- The end of a round; `again` is the next one.
    abbrev pub end_round :
        M c.Server (Option (Workspace × Bool))
        → ℕ
        → Workspace
        → Bool
        → M c.Server (Option (Workspace × Bool))
    end_round again i cur true = pure (some (cur, true))
    end_round again i cur false =
        if not (before (readings i) deadline)
        then pure (some (cur, false))
        else if cancelled i
        then fail other_error
        else again

    abbrev pub hold_round :
        M c.Server (Option (Workspace × Bool)) → ℕ → M c.Server (Option (Workspace × Bool))
    hold_round again i = do
      cur ← read (c.get_workspace key)
      servable ← is_servable cur
      end_round again i cur servable

    -- `none` when the rounds allowed for are used up.
    unfoldable pub hold_loop : ℕ → ℕ → M c.Server (Option (Workspace × Bool))
    unfolding is_servable
    hold_loop zero i = pure none
    hold_loop (suc rounds) i = hold_round (hold_loop rounds (suc i)) i

  unfoldable pub wake : Time → Workspace → M c.Server Workspace
  wake now ws =
      if is_some ws.status.wake_requested_at
      then pure ws
      else send_status_patch c ws (with_wake now ws)

  -- `start` is the real time when the hold begins, which the injected clock does not give.
  module _ (cfg : Config) (now start : Time) (readings : ℕ → Time) (cancelled : ℕ → Bool) where
    unfoldable pub cold_start_hold : ℕ → Workspace → M c.Server (Option (Workspace × Bool))
    unfolding wake hold_loop
    cold_start_hold rounds ws =
        wake now ws
        >>= (λ _. hold_loop ws.key (time_add start cfg.cold_start_hold) readings cancelled rounds 0)
