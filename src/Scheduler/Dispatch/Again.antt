-- ===== src/Scheduler/Dispatch/Again.antt =====
-- `AgentOnline` of dashboard/internal/scheduler/scheduler.go: tasks for an agent that comes back.
use mathlib.Core.List.{append-nil}
use uptime_mesh.Prelude.{
  ◌+◌, ◌≤◌, ◌≡◌, refl, false, true, List, [], ◌∷◌, ◌++◌, none, some, String, arith, lookup, eq_iff,
  if◌then◌else◌, mem?, mem?-keep, is_some,
}
use uptime_mesh.Scheduler.Flight.{
  Envelope, InFlightRound, is_dispatched, undispatched_agents, mark_dispatched,
}
use uptime_mesh.Store.Id.{id_from_hex}
use uptime_mesh.Scheduler.World.{World, Scheduler}
use uptime_mesh.Scheduler.Dispatch.{resend, resend_all, with_frame, agent_online, send_task}

module _ {F : Type 0} (w : World F) (agent : String) where
  resend_again :
      (r : InFlightRound F) → resend w agent (resend w agent r).0 ≡ ((resend w agent r).0, none)
  unfolding resend send_task mark_dispatched mem?
  resend_again r = ground (arith, eq_iff agent agent)

  resend_all_again :
      (rs : List (String × InFlightRound F))
      → resend_all w agent (resend_all w agent rs).0 ≡ ((resend_all w agent rs).0, [])
  unfolding resend_all with_frame
  resend_all_again [] = refl
  resend_all_again ((id, r) ∷ rs) = rw (resend_again r, resend_all_again rs) refl

  -- An agent that comes back twice while nothing else happens is sent each task once: the second
  -- time changes no round and sends no frame.
  pub agent_online_once :
      (s : Scheduler F) → agent_online w (agent_online w s agent) agent ≡ agent_online w s agent
  unfolding agent_online
  agent_online_once s =
      let again = resend_all_again s.rounds in
      ground (arith, again, append-nil (s.sent ++ (resend_all w agent s.rounds).1))

  -- A frame that goes out again goes to the agent that came back, by the id that its text is read
  -- as; the hub takes it, and it is the task of the round. The round was assigned to that agent,
  -- which was never given the task and has not reported; it is open, and a whole probe still fits
  -- before its deadline. Rounds that are served one agent after another are left alone.
  pub resend_in_time :
      (r : InFlightRound F) (frame : String × Envelope)
      → (resend w agent r).1 ≡ some frame
      → (id_from_hex agent ≡ some frame.0)
        × (w.accepts frame.0 ≡ true)
        × (mem? agent r.spec.agent_ids ≡ true)
        × (is_dispatched r agent ≡ false)
        × (is_some (lookup agent r.results) ≡ false)
        × (r.closed ≡ false)
        × (r.spec.serial_dispatch ≡ false)
        × (w.now + r.spec.probe_timeout ≤ r.spec.deadline)
        × (r.task ≡ some frame.1)
  unfolding resend send_task undispatched_agents
  resend_in_time r frame h = ground (
    arith,
    mem?-keep
        (λ id.
          if is_dispatched r id
          then false
          else if is_some (lookup id r.results)
          then false
          else true)
        agent r.spec.agent_ids,
  )
