-- ===== src/Router/Connections/Alive.antt =====
-- What a router publishes (internal/router/connections.go) beside what the Reaper reads of it
-- (internal/controller/reaper.go).
use mathlib.Core.List.{Memᴰ}
use per_user_container_opera.Common.{
  ◌≡◌, refl, inl, inr, true, false, none, some, List, [], ◌∷◌, Text, text_eq, Time, ℤ, ◌<ℤ◌, ◌<◌,
  pos_part, if_cases, arith, All, map_set, Option-cases,
}
use per_user_container_opera.Api.Workspace.{Workspace, Key, ConnectionEntry}
use per_user_container_opera.Api.App.{PerUserApp}
use per_user_container_opera.Cluster.{
  Client, read, send_status_patch, requests, Request, patch_workspace_status, pure, ◌>>=◌, M,
}
use per_user_container_opera.Cluster.Keeps.{Keeps, Keeps-bind, Keeps-read}
use per_user_container_opera.Reaper.Predicate.{
  is_reapable, is_reapable-live, is_fresh, threshold, HasCount, live_connections,
}
use per_user_container_opera.Router.Connections.{
  published, touched, is_noted, note_activity, touch_activity,
}

entry_published :
    (pod : Text) (e : ConnectionEntry) (m : List (Text × ConnectionEntry))
    → Memᴰ (pod, e) (map_set pod e m)
unfolding map_set
entry_published pod e [] = Memᴰ.head refl
entry_published pod e ((j, x) ∷ m) =
    if_cases (λ l. Memᴰ (pod, e) l) (text_eq j pod) ((pod, e) ∷ m) ((j, x) ∷ map_set pod e m)
      (λ t. Memᴰ.head refl) (λ t. Memᴰ.tail (entry_published pod e m))

-- A workspace for which a router has published a positive count is not reapable as long as the
-- publication is fresh, that is for two heartbeat intervals, if no published count is negative and
-- those that are fresh do not overflow an int32 together: the Reaper never scales down a session
-- that its router still reports, whatever the other fields say.
pub is_reapable-published :
    (ws : Workspace) (app : PerUserApp) (pod : Text) (n : ℤ) (at now : Time)
    → 0 < pos_part n
    → is_fresh now (threshold app) (record { count = n; heartbeat_at = at }) ≡ true
    → All HasCount (published pod n at ws).status.connections
    → live_connections now (threshold app) (published pod n at ws).status.connections < 2147483648
    → is_reapable (published pod n at ws) app now ≡ false
is_reapable-published ws app pod n at now p f h b =
    is_reapable-live (published pod n at ws) app now (pod, record { count = n; heartbeat_at = at })
      h b (entry_published pod (record { count = n; heartbeat_at = at }) ws.status.connections) f p

-- A patch that moves the activity of a workspace forward to a time, and changes nothing else.
pub data IsForward (at : Time) : Request → Type 0 where
  first :
      (ws : Workspace)
      → ws.status.last_activity ≡ none
      → IsForward at (patch_workspace_status ws (touched at ws))
  later :
      (ws : Workspace) (last : Time)
      → ws.status.last_activity ≡ some last
      → last <ℤ at
      → IsForward at (patch_workspace_status ws (touched at ws))

pub forward :
    (at : Time) (ws : Workspace)
    → is_noted ws.status.last_activity at ≡ false
    → IsForward at (patch_workspace_status ws (touched at ws))
forward at ws e = elim (Option-cases ws.status.last_activity) [
  | inl n ↦ first ws n
  | inr (last, n) ↦ later ws last n (ground (arith, n))
]

note_activity-IsForward :
    (c : Client) (key : Key) (at : Time) (ws : Workspace)
    → Keeps (IsForward at) (note_activity c key at ws)
unfolding note_activity send_status_patch
note_activity-IsForward c key at ws =
    if_cases (λ (m : M c.Server (Unit {0})). Keeps (IsForward at) m)
      (is_noted ws.status.last_activity at) (pure tt)
      (send_status_patch c ws (touched at ws) >>= (λ _. pure tt)) (λ e w h. h)
      (λ e.
        Keeps-bind (IsForward at) (send_status_patch c ws (touched at ws)) (λ _. pure tt)
          (λ w h. (forward at ws e, h)) (λ _ w h. h))

-- Whatever the server answers, noting an activity only moves it forward from what was read: it never
-- writes over a later one that it has seen, and touches no other field.
touch_activity-IsForward :
    (c : Client) (key : Key) (at : Time) (s : c.Server)
    → All
        (IsForward at)
        (requests (touch_activity c key at (record { server = s; log = [] })).1.log)
unfolding touch_activity
touch_activity-IsForward c key at s =
    Keeps-bind (IsForward at) (read (c.get_workspace key)) (note_activity c key at)
      (Keeps-read (IsForward at) (c.get_workspace key)) (note_activity-IsForward c key at)
      (record { server = s; log = [] }) tt
