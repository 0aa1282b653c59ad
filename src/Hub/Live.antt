-- ===== src/Hub/Live.antt =====
-- The agents of the connections that are not closed (dashboard/internal/hub/hub.go).
use uptime_mesh.Prelude.{
  ◌≡◌, refl, Bool, true, false, not, ◌&&◌, some, String, str_eq, eq_iff, arith, lookup, insert,
  lookup-insert, Option-cases, inl, inr,
}
use uptime_mesh.Scheduler.Flight.{Envelope}
use uptime_mesh.Hub.{
  Conn, Hub, close_conn, give_way, register, unregister, get_conn, rename_conn, force_disconnect,
  send_conn, send_to_agent,
}
use uptime_mesh.Hub.Registry.{OneLive, lookup-close_conn, get_conn-lookup, send_conn-kept}

-- The agent of every connection that is not closed passes a test.
abbrev pub AllLive : (String → Bool) → Hub → Type 0
AllLive good h =
    (key : String) (c : Conn) → lookup key h.heap ≡ some c → c.done ≡ false → good c.agent_id ≡ true

pub AllLive-insert :
    (good : String → Bool) (h : Hub) (key : String) (c d : Conn)
    → lookup key h.heap ≡ some c
    → d.agent_id ≡ c.agent_id
    → d.done ≡ c.done
    → AllLive good h
    → AllLive good (record h { heap = insert key d h.heap })
AllLive-insert good h key c d e a n live j x f l =
    ground (arith, eq_iff key j, lookup-insert key j d h.heap, live key c, live j x)

AllLive-close_conn :
    (good : String → Bool) (h : Hub) (key : String)
    → AllLive good h
    → AllLive good (record h { heap = close_conn h.heap key })
AllLive-close_conn good h key live j x f l =
    ground (arith, live j x, lookup-close_conn h.heap key j x f l)

give_way-AllLive :
    (good : String → Bool) (h : Hub) (key agent : String)
    → AllLive good h
    → AllLive good (record h { heap = give_way h key agent })
unfolding give_way
give_way-AllLive good h key agent live j x f l = elim (Option-cases (lookup agent h.conns)) [
  | inl n ↦ ground (arith, live j x)
  | inr (old, n) ↦ ground (arith, live j x, lookup-close_conn h.heap old j x)
]

pub register-AllLive :
    (good : String → Bool) (h : Hub) (key : String) (c : Conn)
    → good c.agent_id ≡ true
    → AllLive good h
    → AllLive good (register h key c)
unfolding register
register-AllLive good h key c g live j x f l = ground (
  arith,
  g,
  eq_iff key j,
  lookup-insert key j c (give_way h key c.agent_id),
  give_way-AllLive good h key c.agent_id live j x,
)

pub unregister-AllLive :
    (good : String → Bool) (h : Hub) (key : String)
    → AllLive good h
    → AllLive good (unregister h key)
unfolding unregister
unregister-AllLive good h key live j x f l = elim (Option-cases (lookup key h.heap)) [
  | inl n ↦ ground (arith, live j x)
  | inr (c, n) ↦ ground (arith, live j x, lookup-close_conn h.heap key j x)
]

pub send_to_agent-AllLive :
    (good : String → Bool) (h : Hub) (agent : String) (env : Envelope)
    → AllLive good h
    → AllLive good (send_to_agent h agent env).0
unfolding send_to_agent
send_to_agent-AllLive good h agent env live j x f l = elim (Option-cases (get_conn h agent)) [
  | inl n ↦ ground (arith, live j x)
  | inr ((key, c), n) ↦ ground (
    arith,
    AllLive-insert good h key c (send_conn c env).0 (get_conn-lookup h agent key c n)
        (send_conn-kept c env).0 (send_conn-kept c env).1 live j x,
  )
]

pub rename_conn-AllLive :
    (good : String → Bool) (h : Hub) (agent name : String)
    → AllLive good h
    → AllLive good (rename_conn h agent name)
unfolding rename_conn
rename_conn-AllLive good h agent name live j x f l = elim (Option-cases (get_conn h agent)) [
  | inl n ↦ ground (arith, live j x)
  | inr ((key, c), n) ↦ ground (
    arith,
    AllLive-insert good h key c (record c { name = name }) (get_conn-lookup h agent key c n) refl
        refl live j x,
  )
]

-- A forced disconnection leaves no open connection of the agent.
pub force_disconnect-AllLive :
    (good : String → Bool) (h : Hub) (agent : String)
    → OneLive h
    → AllLive good h
    → AllLive (λ id. good id && not (str_eq agent id)) (force_disconnect h agent)
unfolding force_disconnect get_conn
force_disconnect-AllLive good h agent one live j x f l =
    elim (Option-cases (lookup agent h.conns)) [
      | inl n ↦ ground (arith, live j x, one j x, eq_iff agent x.agent_id)
      | inr (key, n) ↦ elim (Option-cases (lookup key h.heap)) [
        | inl m ↦ ground (arith, live j x, one j x, eq_iff agent x.agent_id)
        | inr (c, m) ↦ ground (
          arith,
          live j x,
          one j x,
          eq_iff agent x.agent_id,
          eq_iff key j,
          lookup-close_conn h.heap key j x,
        )
      ]
    ]
