-- ===== src/Site.antt =====
-- The agents of a site: their rows with the hub's connections, the operator's requests on them
-- (dashboard/internal/api/agents.go) and the opening of a session (`ServeWS` of
-- dashboard/internal/hub/session.go). A request or an opening is one step. The events that the
-- browsers are sent are not modelled.
pub mod Admission
pub mod Answered
pub mod Opening
pub mod Standing
pub mod Barred
pub mod Between
pub mod Credentials
pub mod Delivery
pub mod Machine
use uptime_mesh.Prelude.{
  ℕ, Bool, true, false, not, ◌&&◌, leb, str_eq, List, [], ◌∷◌, Option, none, some, String,
  if◌then◌else◌, is_some, lookup, insert,
}
use uptime_mesh.Store.Agents.{
  Agent, AgentStatus, find_agent_by_id, approve_agent, revoke_agent, soft_delete_agent,
  delete_agent, set_agent_name, set_agent_offline_notify, is_approved,
}
use uptime_mesh.Scheduler.Flight.{Envelope}
use uptime_mesh.Hub.{
  Conn, Hub, SendResult, register, unregister, send_conn, send_to_agent, force_disconnect, get_conn,
  rename_conn,
}
use uptime_mesh.Hub.Session.{Hello, AuthWorld, authenticate, pending_credential}

pub record Site : Type 0 where
  pub agents : List Agent
  pub hub : Hub

-- The code of the answer: 0, 404, 400, 500.
pub data Response : Type 0 where
  done not_found wrong_status failed : Response

-- What one request meets: which of its statements fail, and what `NewCredential` makes.
pub record Request : Type 0 where
  pub agent_id : String
  pub find_fails : Bool
  pub write_fails : Bool
  pub credential : String
  pub now : ℕ

-- What the frames need: `HashSecret` and the encoders, of which the credential's may fail.
pub record Frames : Type 0 where
  pub hash_secret : String → String
  pub hello_ack : AgentStatus → String → Envelope
  pub credential : String → String → Option Envelope

abbrev pub is_pending : AgentStatus → Bool
is_pending AgentStatus.pending = true
is_pending _ = false

abbrev pub is_revoked : AgentStatus → Bool
is_revoked AgentStatus.revoked = true
is_revoked _ = false

-- How every request begins: the row must be there, in the status that the request is for; `write`
-- is what follows where the statement does not fail.
unfoldable pub on_agent : (AgentStatus → Bool) → (Site → Site) → Site → Request → Site × Response
on_agent allowed write s r =
    if r.find_fails then (s, not_found) else elim (find_agent_by_id s.agents r.agent_id) [
      | none ↦ (s, not_found)
      | some a ↦
          if allowed a.status
          then if r.write_fails then (s, failed) else (write s, done)
          else (s, wrong_status)
    ]

-- The credential is sent at once where the agent is connected.
unfoldable pub push_credential : Frames → Hub → String → String → Hub
push_credential fr hub agent_id credential =
    if is_some (get_conn hub agent_id)
    then elim (fr.credential agent_id credential) [
      | none ↦ hub
      | some env ↦ (send_to_agent hub agent_id env).0
    ]
    else hub

abbrev pub grant : Frames → Request → Site → Site
grant fr r s = record {
  agents = approve_agent fr.hash_secret s.agents r.agent_id r.credential r.now;
  hub = push_credential fr s.hub r.agent_id r.credential;
}

-- `approveAgent`
unfoldable pub approve_request : Frames → Site → Request → Site × Response
approve_request fr s r = on_agent is_pending (grant fr r) s r

-- `reApproveAgent`
unfoldable pub re_approve_request : Frames → Site → Request → Site × Response
re_approve_request fr s r = on_agent is_revoked (grant fr r) s r

-- `rejectAgent`, which leaves the connection.
unfoldable pub reject_request : Site → Request → Site × Response
reject_request s r =
    on_agent is_pending (λ t. record t { agents = delete_agent t.agents r.agent_id }) s r

abbrev pub revoking : Request → Site → Site
revoking r s = record {
  agents = revoke_agent s.agents r.agent_id r.now;
  hub = force_disconnect s.hub r.agent_id;
}

-- `revokeAgent`
unfoldable pub revoke_request : Site → Request → Site × Response
revoke_request s r = on_agent is_approved (revoking r) s r

-- `deleteAgent`
unfoldable pub delete_request : Site → Request → Site × Response
delete_request s r =
    on_agent is_revoked
      (λ t. record {
        agents = soft_delete_agent t.agents r.agent_id r.now;
        hub = force_disconnect t.hub r.agent_id;
      })
      s r

abbrev pub is_deleted : AgentStatus → Bool
is_deleted AgentStatus.deleted = true
is_deleted _ = false

-- `agentNameMaxRunes`
abbrev pub agent_name_max_runes : ℕ
agent_name_max_runes = 64

-- `updateAgentName`; `name` is the text without the spaces around it, `runes` its length.
unfoldable pub rename_request : Site → Request → String → ℕ → Site × Response
rename_request s r name runes =
    let allowed = λ (status : AgentStatus).
      not (is_deleted status) && (not (str_eq name "") && leb runes agent_name_max_runes) in
    on_agent allowed
      (λ t. record {
        agents = set_agent_name t.agents r.agent_id name r.now;
        hub = rename_conn t.hub r.agent_id name;
      })
      s r

-- `updateAgentOfflineNotify`
unfoldable pub notify_request : Site → Request → Bool → Site × Response
notify_request s r on =
    on_agent is_approved
      (λ t. record t { agents = set_agent_offline_notify t.agents r.agent_id on r.now }) s r

-- `newConn`
abbrev pub new_conn : Agent → ℕ → Conn
new_conn a now = record {
  agent_id = a.id;
  name = a.name;
  last_seen = now;
  queue = [];
  done = false;
  pongs = [];
}

-- `c.Send` on the connection of a session.
unfoldable pub send_on : Hub → String → Envelope → Hub × SendResult
send_on hub key env = elim (lookup key hub.heap) [
  | none ↦ (hub, SendResult.agent_offline)
  | some c ↦
      let (next, result) = send_conn c env in
      (record hub { heap = insert key next hub.heap }, result)
]

unfoldable pub deliver_pending_credential : Frames → Bool → List Agent → Hub → String → String → Hub
deliver_pending_credential fr fails rows hub key agent_id =
    elim (pending_credential fails rows agent_id) [
      | none ↦ hub
      | some credential ↦ elim (fr.credential agent_id credential) [
        | none ↦ hub
        | some env ↦ (send_on hub key env).0
      ]
    ]

-- `ServeWS` from the registration to the start of the read loop. A session whose acknowledgement
-- cannot be queued ends.
unfoldable pub open_session :
    Frames → Bool → List Agent → Hub → String → Agent → AgentStatus → ℕ → Hub
open_session fr fails rows hub key a status now =
    let (acknowledged, result) =
      send_on (register hub key (new_conn a now)) key (fr.hello_ack status a.id) in
    elim result [
      | SendResult.sent ↦
          if is_approved status
          then deliver_pending_credential fr fails rows acknowledged key a.id
          else acknowledged
      | _ ↦ unregister acknowledged key
    ]

-- `ServeWS` up to there, for a connection under `key` and the hello that was read of it. The callback
-- `OnAgentConnected` is the scheduler's `AgentOnline`, which is modelled with the dispatch.
unfoldable pub serve : Frames → AuthWorld → Site → Hello → String → String → Site
serve fr w s hello source_ip key =
    let (rows, admitted) = authenticate fr.hash_secret w s.agents hello source_ip in
    elim admitted [
      | none ↦ record s { agents = rows }
      | some (a, status) ↦ record {
        agents = rows;
        hub = open_session fr w.deliver_fails rows s.hub key a status w.now;
      }
    ]
