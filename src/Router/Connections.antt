-- ===== src/Router/Connections.antt =====
-- internal/router/connections.go: the connections that a router counts, and the activity that it
-- notes. The mutex makes each change of the counts one step, so the counts are passed along; the map
-- of counts is a list of its entries.
pub mod Counts
pub mod Alive
use per_user_container_opera.Common.{
  Bool, true, false, not, Option, none, some, List, [], ◌∷◌, Text, Time, ℤ, pos, ◌+ℤ◌, ◌-ℤ◌, ltb_ℤ,
  wrap32, before, if◌then◌else◌, map_set, Result, ok, err,
}
use per_user_container_opera.Api.Workspace.{Workspace, Key, key_eq, ConnectionEntry}
use per_user_container_opera.Cluster.{
  Client, World, M, ◌>>=◌, ◌>>◌, then_step, pure, read, emit, send_status_patch, measured,
  open_connections,
}

abbrev pub Counts : Type 0
Counts = List (Key × ℤ)

-- A missing key counts 0.
unfoldable pub count_of : Counts → Key → ℤ
count_of [] k = pos 0
count_of ((j, n) ∷ rest) k = if key_eq j k then n else count_of rest k

unfoldable pub set_count : Counts → Key → ℤ → Counts
set_count [] k n = (k, n) ∷ []
set_count ((j, m) ∷ rest) k n = if key_eq j k then (k, n) ∷ rest else (j, m) ∷ set_count rest k n

-- `t.counts[key]++`, on an int32.
unfoldable pub opened : Counts → Key → Counts
opened counts k = set_count counts k (wrap32 (count_of counts k +ℤ pos 1))

unfoldable pub closed : Counts → Key → Counts
closed counts k =
    if ltb_ℤ (pos 0) (count_of counts k)
    then set_count counts k (wrap32 (count_of counts k -ℤ pos 1))
    else counts

-- `ws.Status.Connections[t.PodName] = ...`.
abbrev pub published : Text → ℤ → Time → Workspace → Workspace
published pod n now ws = record ws {
  status = record (ws.status) {
    connections = map_set pod (record { count = n; heartbeat_at = now }) ws.status.connections;
  };
}

-- `ws.Status.LastActivity = &t`.
abbrev pub touched : Time → Workspace → Workspace
touched at ws = record ws { status = record (ws.status) { last_activity = some at } }

-- `ws.Status.LastActivity != nil && !ws.Status.LastActivity.Time.Before(at)`.
abbrev pub is_noted : Option Time → Time → Bool
is_noted none at = false
is_noted (some last) at = not (before last at)

module _ (c : Client) where
  unfoldable pub note_activity : Key → Time → Workspace → M c.Server (Unit {0})
  note_activity key at ws =
      if is_noted ws.status.last_activity at
      then pure tt
      else send_status_patch c ws (touched at ws) >>= (λ _. pure tt)

  unfoldable pub touch_activity : Key → Time → M c.Server (Unit {0})
  unfolding note_activity
  touch_activity key at = read (c.get_workspace key) >>= note_activity key at

  -- A tracker of an app in the pod of a router; `now` is the time when a publication is made.
  module _ (app pod : Text) (now : Time) where
    unfoldable pub publish : Key → ℤ → M c.Server (Unit {0})
    publish key n = do
      ws ← read (c.get_workspace key)
      _ ← send_status_patch c ws (published pod n now ws)
      emit (measured (open_connections key.namespace app pod n))

    -- `Open` and `Close`: the counts, and the outcome of publishing the new one.
    unfoldable pub open_connection :
        Counts → Key → World c.Server → Counts × Result (Unit {0}) × World c.Server
    unfolding opened
    open_connection counts key w =
        let (r, w') = publish key (count_of (opened counts key) key) w in (opened counts key, r, w')

    unfoldable pub close_connection :
        Counts → Key → World c.Server → Counts × Result (Unit {0}) × World c.Server
    unfolding closed
    close_connection counts key w =
        let (r, w') = publish key (count_of (closed counts key) key) w in (closed counts key, r, w')

    -- `HeartbeatAll`, which drops the errors.
    unfoldable pub heartbeat_all : Counts → World c.Server → World c.Server
    heartbeat_all [] w = w
    heartbeat_all ((key, n) ∷ rest) w = heartbeat_all rest (publish key n w).1
