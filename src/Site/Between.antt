-- ===== src/Site/Between.antt =====
-- A revocation between the two halves of `ServeWS` (dashboard/internal/hub/session.go): the
-- authentication reads the rows, the registration comes later and does not read them again.
use uptime_mesh.Prelude.{
  ℕ, ◌≡◌, refl, Bool, true, false, not, List, none, some, String, eq_iff, arith, lookup,
  lookup-insert, Option-cases, inl, inr,
}
use uptime_mesh.Store.Agents.{Agent, AgentStatus, revoked, revoke_agent, barred_as, is_approved}
use uptime_mesh.Store.Agents.Identity.{find-update_agent}
use uptime_mesh.Scheduler.Flight.{Envelope}
use uptime_mesh.Hub.{Conn, Hub, SendResult, give_way, register, get_conn, send_conn}
use uptime_mesh.Hub.Session.{Hello, AuthWorld, authenticate, pending_credential}
use uptime_mesh.Site.{
  Site, Request, done, Frames, new_conn, send_on, deliver_pending_credential, open_session,
  revoking, revoke_request,
}
use uptime_mesh.Site.Admission.{status_at}
use uptime_mesh.Site.Standing.{on_agent-cases}

-- Whether an open connection of the agent is registered.
abbrev pub is_connected : Hub → String → Bool
is_connected hub id = elim (get_conn hub id) [ none ↦ false | some (key, c) ↦ not c.done ]

send_on-is_connected :
    (hub : Hub) (key id : String) (env : Envelope)
    → is_connected (send_on hub key env).0 id ≡ is_connected hub id
unfolding send_on send_conn get_conn
send_on-is_connected hub key id env = elim (Option-cases (lookup key hub.heap)) [
  | inl n ↦ ground arith
  | inr (c, n) ↦ elim (Option-cases (lookup id hub.conns)) [
    | inl m ↦ ground arith
    | inr (k, m) ↦ ground (arith, eq_iff key k, lookup-insert key k (send_conn c env).0 hub.heap)
  ]
]

register-is_connected :
    (hub : Hub) (key : String) (c : Conn)
    → c.done ≡ false
    → is_connected (register hub key c) c.agent_id ≡ true
unfolding register get_conn
register-is_connected hub key c d = ground (
  arith,
  lookup-insert c.agent_id c.agent_id key hub.conns,
  lookup-insert key key c (give_way hub key c.agent_id),
  eq_iff key key,
  eq_iff c.agent_id c.agent_id,
)

-- A fresh connection takes the acknowledgement.
acknowledged :
    (hub : Hub) (key : String) (a : Agent) (now : ℕ) (env : Envelope)
    → (send_on (register hub key (new_conn a now)) key env).1 ≡ SendResult.sent
unfolding send_on send_conn register
acknowledged hub key a now env =
    ground (arith, lookup-insert key key (new_conn a now) (give_way hub key a.id), eq_iff key key)

deliver-is_connected :
    (fr : Frames) (fails : Bool) (rows : List Agent) (hub : Hub) (key agent_id id : String)
    → is_connected (deliver_pending_credential fr fails rows hub key agent_id) id
      ≡ is_connected hub id
unfolding deliver_pending_credential
deliver-is_connected fr fails rows hub key agent_id id =
    elim (Option-cases (pending_credential fails rows agent_id)) [
      | inl n ↦ rw (n, deliver_pending_credential) refl
      | inr (c, n) ↦ elim (Option-cases (fr.credential agent_id c)) [
        | inl m ↦ rw (n, deliver_pending_credential) (rw m refl)
        | inr (env, m) ↦
            rw (n, deliver_pending_credential) (rw m (send_on-is_connected hub key id env))
      ]
    ]

open_session-is_connected :
    (fr : Frames) (fails : Bool) (rows : List Agent) (hub : Hub) (key : String) (a : Agent)
    (st : AgentStatus) (now : ℕ)
    → is_connected (open_session fr fails rows hub key a st now) a.id ≡ true
unfolding open_session
open_session-is_connected fr fails rows hub key a st now =
    let env = fr.hello_ack st a.id in
    let h = (send_on (register hub key (new_conn a now)) key env).0 in
    ground (
      arith,
      acknowledged hub key a now env,
      send_on-is_connected (register hub key (new_conn a now)) key a.id env,
      register-is_connected hub key (new_conn a now),
      deliver-is_connected fr fails rows h key a.id a.id,
    )

-- Let a hello be authenticated, for an agent and with whatever status; let then a request to revoke
-- that agent be carried out; and let the session of the hello be registered only after it. At the
-- end the agent's row is revoked, and yet the hub's connection of the agent is open.
pub open_session-revoked :
    (fr : Frames) (w : AuthWorld) (s : Site) (hello : Hello) (source_ip : String)
    (rows : List Agent) (r : Request) (a : Agent) (st : AgentStatus) (key : String)
    → authenticate fr.hash_secret w s.agents hello source_ip ≡ (rows, some (a, st))
    → r.agent_id ≡ a.id
    → (revoke_request (record s { agents = rows }) r).1 ≡ done
    → let t = (revoke_request (record s { agents = rows }) r).0 in
      (status_at t.agents a.id ≡ some revoked)
      × (is_connected (open_session fr w.deliver_fails t.agents t.hub key a st w.now) a.id ≡ true)
unfolding revoke_request revoke_agent
open_session-revoked fr w s hello source_ip rows r a st key auth i e =
    let t = (revoke_request (record s { agents = rows }) r).0 in
    (
      elim (on_agent-cases is_approved (revoking r) (record s { agents = rows }) r) [
        | inl (x, y) ↦ absurd (ground arith)
        | inr (b, n, p, x) ↦ ground (
          arith,
          find-update_agent r.agent_id r.agent_id (barred_as revoked r.now) rows (λ c. refl),
          eq_iff r.agent_id r.agent_id,
        )
      ],
      open_session-is_connected fr w.deliver_fails t.agents t.hub key a st w.now,
    )
