-- ===== src/Hub.antt =====
-- dashboard/internal/hub/hub.go: the registry of the agents' connections. A connection is known by
-- a key, which stands for its pointer; the sockets and the goroutines that read them are not
-- modelled. Times are nanoseconds. One method is one step.
pub mod Registry
pub mod Presence
pub mod Session
pub mod Live
pub mod Reported
use uptime_mesh.Prelude.{
  ℕ, ◌+◌, ◌*◌, Bool, true, false, not, List, [], ◌∷◌, ◌++◌, Option, none, some, String, str_eq, ltb,
  length, if◌then◌else◌, lookup, insert, delete, remove,
}
use uptime_mesh.Scheduler.Plan.{second}
use uptime_mesh.Scheduler.Flight.{Envelope}

abbrev pub offline_after : ℕ
offline_after = 30 * second

abbrev pub send_buffer_size : ℕ
send_buffer_size = 64

-- `queue` is the buffer of `send`, oldest first; `done` whether that channel is closed; `pongs` are
-- the pings that somebody waits for.
pub record Conn : Type 0 where
  pub agent_id : String
  pub name : String
  pub last_seen : ℕ
  pub queue : List Envelope
  pub done : Bool
  pub pongs : List String

-- One call of `OnAgentChange`.
pub record AgentChange : Type 0 where
  pub agent_id : String
  pub name : String
  pub online : Bool

-- `heap` holds every connection that was made; `conns` the current one of each agent.
pub record Hub : Type 0 where
  pub heap : List (String × Conn)
  pub conns : List (String × String)
  pub changes : List AgentChange

pub data SendResult : Type 0 where
  sent agent_offline buffer_full : SendResult

-- `Conn.close`
unfoldable pub close_conn : List (String × Conn) → String → List (String × Conn)
close_conn heap key = elim (lookup key heap) [
  | none ↦ heap
  | some c ↦ insert key (record c { done = true }) heap
]

-- The connection that a new one of the same agent replaces is closed.
unfoldable pub give_way : Hub → String → String → List (String × Conn)
unfolding close_conn
give_way h key agent_id = elim (lookup agent_id h.conns) [
  | none ↦ h.heap
  | some old ↦ if str_eq old key then h.heap else close_conn h.heap old
]

-- `newConn` and `register`.
unfoldable pub register : Hub → String → Conn → Hub
register h key c = record {
  heap = insert key c (give_way h key c.agent_id);
  conns = insert c.agent_id key h.conns;
  changes = h.changes ++ (record { agent_id = c.agent_id; name = c.name; online = true } ∷ []);
}

-- Whether the connection is the current one of its agent.
unfoldable pub is_current : Hub → String → Conn → Bool
is_current h key c = elim (lookup c.agent_id h.conns) [ none ↦ false | some cur ↦ str_eq cur key ]

-- `unregister` of the connection under `key`.
unfoldable pub unregister : Hub → String → Hub
unfolding is_current
unregister h key = elim (lookup key h.heap) [
  | none ↦ h
  | some c ↦
      if is_current h key c
      then record {
        heap = close_conn h.heap key;
        conns = delete c.agent_id h.conns;
        changes =
            h.changes ++ (record { agent_id = c.agent_id; name = c.name; online = false } ∷ []);
      }
      else record h { heap = close_conn h.heap key }
]

-- `Get`
unfoldable pub get_conn : Hub → String → Option (String × Conn)
get_conn h agent_id = elim (lookup agent_id h.conns) [
  | none ↦ none
  | some key ↦ elim (lookup key h.heap) [ none ↦ none | some c ↦ some (key, c) ]
]

unfoldable pub is_online : Hub → String → ℕ → Bool
is_online h agent_id now = elim (get_conn h agent_id) [
  | none ↦ false
  | some (key, c) ↦ ltb now (c.last_seen + offline_after)
]

unfoldable pub rename_conn : Hub → String → String → Hub
rename_conn h agent_id name = elim (get_conn h agent_id) [
  | none ↦ h
  | some (key, c) ↦ record h { heap = insert key (record c { name = name }) h.heap }
]

unfoldable pub force_disconnect : Hub → String → Hub
force_disconnect h agent_id = elim (get_conn h agent_id) [
  | none ↦ h
  | some (key, c) ↦ record h { heap = close_conn h.heap key }
]

-- `Conn.Send`
unfoldable pub send_conn : Conn → Envelope → Conn × SendResult
send_conn c env =
    if c.done
    then (c, SendResult.agent_offline)
    else if ltb (length c.queue) send_buffer_size
    then (record c { queue = c.queue ++ (env ∷ []) }, SendResult.sent)
    else (c, SendResult.buffer_full)

unfoldable pub send_to_agent : Hub → String → Envelope → Hub × SendResult
unfolding send_conn
send_to_agent h agent_id env = elim (get_conn h agent_id) [
  | none ↦ (h, SendResult.agent_offline)
  | some (key, c) ↦
      let (next, result) = send_conn c env in (record h { heap = insert key next h.heap }, result)
]

unfoldable pub deliver_pong : Hub → String → String → Hub
deliver_pong h key ping_id = elim (lookup key h.heap) [
  | none ↦ h
  | some c ↦ record h { heap = insert key (record c { pongs = remove ping_id c.pongs }) h.heap }
]
