-- ===== src/Router/Serve/Own.antt =====
-- What a request is served from (internal/router/server.go, ensureWorkspace), and what it may write.
use per_user_container_opera.Common.{
  ◌≡◌, refl, ◌∙◌, false, Option, none, some, List, Text, Time, ℤ, is_some, is_already_exists,
  is_not_found, ApiError, Result, ok, err,
}
use per_user_container_opera.Api.Workspace.{Workspace, Key}
use per_user_container_opera.Cluster.{
  Client, World, ◌>>=◌, pure, fail, read, Request, create_workspace, patch_workspace_status,
  send_status_patch, send_create_workspace,
}
use per_user_container_opera.Cluster.Keeps.{Ends}
use per_user_container_opera.Cluster.Delivers.{
  Delivers, Delivers-bind, Delivers-if, Delivers-pure, Delivers-read, Delivers-patch,
  Delivers-create,
}
use per_user_container_opera.Router.Config.{Config}
use per_user_container_opera.Router.Connections.{published, touched}
use per_user_container_opera.Router.Connections.Alive.{IsForward}
use per_user_container_opera.Router.Ensure.{
  workspace_key, new_workspace, enqueued, with_wake, at_limit, ensure_enqueued_at, queue,
  create_failed, after_user_create, create_user, create_below_limit, not_existing, after_get,
  ensure_workspace,
}

-- What the API says of the objects that a call answers with: they have the name that was asked for.
pub record IsNamed (c : Client) : Type 0 where
  pub of_get :
      (k : Key) (s t : c.Server) (ws : Workspace) → c.get_workspace k s ≡ (ok ws, t) → ws.key ≡ k
  pub of_create :
      (v : Workspace) (s t : c.Server) (ws : Workspace)
      → c.create_user_workspace v s ≡ (ok ws, t)
      → ws.key ≡ v.key
  pub of_patch :
      (base v : Workspace) (s t : c.Server) (ws : Workspace)
      → c.patch_status base v s ≡ (ok ws, t)
      → ws.key ≡ v.key

-- The writes that a request of a user may make, all of the user's own Workspace: to create it, when
-- the app is below its limit; to give it a place in the queue that it does not have, and to ask for a
-- wake-up that is not asked for; to move its activity forward; and to publish this router's count of
-- connections. None touches its phase, and none deletes.
pub data IsUserWrite (cfg : Config) (raw user : Text) : Request → Type 0 where
  creates :
      (list : List Workspace)
      → at_limit cfg.max_workspaces list ≡ false
      → IsUserWrite cfg raw user (create_workspace (new_workspace cfg raw user))
  queues :
      (at : Time) (ws : Workspace)
      → ws.key ≡ workspace_key cfg user
      → ws.status.enqueued_at ≡ none
      → IsUserWrite cfg raw user (patch_workspace_status ws (enqueued at ws))
  wakes :
      (at : Time) (ws : Workspace)
      → ws.key ≡ workspace_key cfg user
      → ws.status.wake_requested_at ≡ none
      → IsUserWrite cfg raw user (patch_workspace_status ws (with_wake at ws))
  notes :
      (at : Time) (ws : Workspace)
      → ws.key ≡ workspace_key cfg user
      → IsForward at (patch_workspace_status ws (touched at ws))
      → IsUserWrite cfg raw user (patch_workspace_status ws (touched at ws))
  publishes :
      (at : Time) (n : ℤ) (ws : Workspace)
      → ws.key ≡ workspace_key cfg user
      → IsUserWrite cfg raw user (patch_workspace_status ws (published cfg.pod_name n at ws))

pub not_set : {A : Type 0} (o : Option A) → is_some o ≡ false → o ≡ none
not_set none e = refl
not_set (some a) e = absurd (cc e)

module _ (c : Client) (named : IsNamed c) (cfg : Config) (raw user : Text) where
  abbrev pub own : Key
  own = workspace_key cfg user

  abbrev pub IsOwn : Workspace → Type 0
  IsOwn ws = ws.key ≡ own

  abbrev pub IsOwnIfAny : Option Workspace → Type 0
  IsOwnIfAny none = Unit
  IsOwnIfAny (some ws) = IsOwn ws

  abbrev pub IsOwnWrite : Request → Type 0
  IsOwnWrite q = IsUserWrite cfg raw user q

  pub read-IsOwn : Delivers IsOwnWrite IsOwn (read (c.get_workspace own))
  read-IsOwn = Delivers-read IsOwnWrite IsOwn (c.get_workspace own) (named.of_get own)

  ensure_enqueued_at-IsOwn :
      (now : Time) (ws : Workspace)
      → IsOwn ws
      → Delivers IsOwnWrite IsOwn (ensure_enqueued_at c now ws)
  unfolding ensure_enqueued_at
  ensure_enqueued_at-IsOwn now ws o =
      Delivers-if IsOwnWrite IsOwn (is_some ws.status.enqueued_at) (pure ws)
        (send_status_patch c ws (enqueued now ws)) (λ e. Delivers-pure IsOwnWrite IsOwn ws o)
        (λ e.
          Delivers-patch c IsOwnWrite IsOwn ws (enqueued now ws)
            (queues now ws o (not_set ws.status.enqueued_at e))
            (λ s t a q. named.of_patch ws (enqueued now ws) s t a q ∙ o))

  queue-IsOwn :
      (now : Time) (ws : Workspace)
      → IsOwn ws
      → Delivers IsOwnWrite IsOwnIfAny (queue c cfg now raw user ws)
  queue-IsOwn now ws o =
      Delivers-bind IsOwnWrite IsOwn IsOwnIfAny (ensure_enqueued_at c now ws)
        (λ queued. pure (some queued)) (ensure_enqueued_at-IsOwn now ws o)
        (λ a q. Delivers-pure IsOwnWrite IsOwnIfAny (some a) q)

  create_failed-IsOwn :
      (now : Time) (e : ApiError)
      → Delivers IsOwnWrite IsOwnIfAny (create_failed c cfg now raw user e)
  create_failed-IsOwn now e =
      Delivers-if IsOwnWrite IsOwnIfAny (is_already_exists e)
        (read (c.get_workspace own) >>= queue c cfg now raw user) (fail e)
        (λ t.
          Delivers-bind IsOwnWrite IsOwn IsOwnIfAny (read (c.get_workspace own))
            (queue c cfg now raw user) read-IsOwn (queue-IsOwn now))
        (λ t w h. h)

  create_user-IsOwn :
      (now : Time) (list : List Workspace)
      → at_limit cfg.max_workspaces list ≡ false
      → Delivers IsOwnWrite IsOwnIfAny (create_user c cfg now raw user)
  unfolding create_user new_workspace
  create_user-IsOwn now list b w h =
      answered (send_create_workspace c (new_workspace cfg raw user) w) (
        Delivers-create c IsOwnWrite IsOwn (new_workspace cfg raw user) (creates list b)
          (named.of_create (new_workspace cfg raw user)) w h)
    where
      answered :
          (r : Result Workspace × World c.Server)
          → Ends IsOwnWrite IsOwn r
          → Ends IsOwnWrite IsOwnIfAny (after_user_create c cfg now raw user r)
      answered (ok ws, v) k = queue-IsOwn now ws k.0 v k.1
      answered (err e, v) k = create_failed-IsOwn now e v k

  create_below_limit-IsOwn :
      (now : Time) (list : List Workspace)
      → Delivers IsOwnWrite IsOwnIfAny (create_below_limit c cfg now raw user list)
  unfolding create_below_limit
  create_below_limit-IsOwn now list =
      Delivers-if IsOwnWrite IsOwnIfAny (at_limit cfg.max_workspaces list) (pure none)
        (create_user c cfg now raw user) (λ t w h. (tt, h)) (create_user-IsOwn now list)

  not_existing-IsOwn :
      (now : Time) (e : ApiError)
      → Delivers IsOwnWrite IsOwnIfAny (not_existing c cfg now raw user e)
  not_existing-IsOwn now e =
      Delivers-if IsOwnWrite IsOwnIfAny (is_not_found e)
        (read (c.list_workspaces cfg.namespace cfg.app) >>= create_below_limit c cfg now raw user)
        (fail e)
        (λ t.
          Delivers-bind IsOwnWrite (λ _. Unit) IsOwnIfAny
            (read (c.list_workspaces cfg.namespace cfg.app)) (create_below_limit c cfg now raw user)
            (Delivers-read IsOwnWrite (λ _. Unit) (c.list_workspaces cfg.namespace cfg.app)
              (λ s u a q. tt))
            (λ list u. create_below_limit-IsOwn now list))
        (λ t w h. h)

  pub ensure_workspace-IsOwn :
      (now : Time) → Delivers IsOwnWrite IsOwnIfAny (ensure_workspace c cfg now raw user)
  unfolding ensure_workspace
  ensure_workspace-IsOwn now w h = answered (read (c.get_workspace own) w) (read-IsOwn w h)
    where
      answered :
          (r : Result Workspace × World c.Server)
          → Ends IsOwnWrite IsOwn r
          → Ends IsOwnWrite IsOwnIfAny (after_get c cfg now raw user r)
      answered (ok ws, v) k = queue-IsOwn now ws k.0 v k.1
      answered (err e, v) k = not_existing-IsOwn now e v k
