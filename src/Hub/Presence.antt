-- ===== src/Hub/Presence.antt =====
-- What the hub (dashboard/internal/hub/hub.go) tells of an agent, against its connections.
use uptime_mesh.Prelude.{
  ◌≡◌, refl, true, false, Bool, List, [], ◌∷◌, ◌++◌, String, arith, lookup, lookup-insert,
  lookup-delete, str_eq, Option-cases, inl, inr, if◌then◌else◌, is_some,
}
use uptime_mesh.Hub.{
  AgentChange, Hub, register, unregister, rename_conn, force_disconnect, send_to_agent,
  deliver_pong,
}
use uptime_mesh.Hub.Registry.{
  Use, registers, unregisters, disconnects, renames, sends, pongs_in, step, steps, empty_hub,
}

-- What the last call of `OnAgentChange` for the agent said; `b` if there was none.
abbrev pub last_said : String → Bool → List AgentChange → Bool
last_said agent b [] = b
last_said agent b (c ∷ cs) = last_said agent (if str_eq c.agent_id agent then c.online else b) cs

last_said-append :
    (agent : String) (b : Bool) (cs : List AgentChange) (c : AgentChange)
    → last_said agent b (cs ++ c ∷ [])
      ≡ (if str_eq c.agent_id agent then c.online else last_said agent b cs)
last_said-append agent b [] c = refl
last_said-append agent b (d ∷ cs) c =
    last_said-append agent (if str_eq d.agent_id agent then d.online else b) cs c

abbrev pub Truthful : Hub → Type 0
Truthful h = (agent : String) → last_said agent false h.changes ≡ is_some (lookup agent h.conns)

unregister-Truthful : (h : Hub) (key : String) → Truthful h → Truthful (unregister h key)
unfolding unregister
unregister-Truthful h key t agent = elim (Option-cases (lookup key h.heap)) [
  | inl n ↦ ground (arith, t agent)
  | inr (c, n) ↦ ground (
    arith,
    t agent,
    lookup-delete c.agent_id agent h.conns,
    last_said-append agent false h.changes
        (record { agent_id = c.agent_id; name = c.name; online = false }),
  )
]

step-Truthful : (h : Hub) (u : Use) → Truthful h → Truthful (step h u)
unfolding step register rename_conn force_disconnect send_to_agent deliver_pong
step-Truthful h (registers key c) t agent = ground (
  arith,
  t agent,
  lookup-insert c.agent_id agent key h.conns,
  last_said-append agent false h.changes
      (record { agent_id = c.agent_id; name = c.name; online = true }),
)
step-Truthful h (unregisters key) t agent = unregister-Truthful h key t agent
step-Truthful h (disconnects a) t agent = ground (arith, t agent)
step-Truthful h (renames a name) t agent = ground (arith, t agent)
step-Truthful h (sends a env) t agent = ground (arith, t agent)
step-Truthful h (pongs_in key ping_id) t agent = ground (arith, t agent)

steps-keeps_Truthful : (us : List Use) (h : Hub) → Truthful h → Truthful (steps h us)
unfolding steps
steps-keeps_Truthful [] h t = t
steps-keeps_Truthful (u ∷ us) h t = steps-keeps_Truthful us (step h u) (step-Truthful h u t)

-- Under any sequence of the hub's methods, each with its callback as one step, from a hub with no
-- connection: the last that the hub told of an agent is that it is online exactly if a connection
-- of it is registered. A connection that was replaced says nothing when it goes.
pub steps-Truthful : (us : List Use) → Truthful (steps empty_hub us)
unfolding lookup
steps-Truthful us = steps-keeps_Truthful us empty_hub (λ agent. refl)
