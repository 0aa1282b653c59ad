-- ===== src/Scheduler/Cycle.antt =====
-- `cycle` of dashboard/internal/scheduler/scheduler.go: what one tick of the scheduler does. Each
-- monitor of the tick comes with the id of the row it would get and the text of its silence.
pub mod Expiry
use uptime_mesh.Prelude.{
  ℕ, ◌*◌, Bool, true, false, ◌&&◌, List, [], ◌∷◌, Option, none, some, String, lookup, insert, ltb,
  if◌then◌else◌, map,
}
use uptime_mesh.Prelude.Float64.{Float64}
use uptime_mesh.CheckConfig.{MonitorType}
use uptime_mesh.Scheduler.Plan.{MonitorSlot, plan_round, second}
use uptime_mesh.Scheduler.Flight.{InFlightRound}
use uptime_mesh.Scheduler.Monitor.{Monitor, Check}
use uptime_mesh.Scheduler.World.{Scheduler, World}
use uptime_mesh.Scheduler.Finalize.{finalize}
use uptime_mesh.Scheduler.Push.{cycle_push}
use uptime_mesh.Scheduler.Dispatch.{
  ProbeTaskPayload, is_download, has_in_flight_round, create_round,
}

pub record Turn (F : Type 0) : Type 0 where
  pub monitor : Monitor F
  pub round_id : String
  pub note : String

abbrev is_push : MonitorType → Bool
is_push MonitorType.push = true
is_push _ = false

-- `settings.roundGraceSeconds`, if the settings can be read; only a positive one is taken over.
unfoldable pub refresh_grace : {F : Type 0} → Option ℕ → Scheduler F → Scheduler F
refresh_grace none s = s
refresh_grace (some seconds) s = if ltb 0 seconds then record s { grace = seconds * second } else s

module _ {F : Type 0} (fl : Float64 F) where
  -- The rounds past their deadline.
  unfoldable pub expire_one : World F → Scheduler F → Option (InFlightRound F) → Scheduler F
  expire_one w s none = s
  expire_one w s (some r) =
      if r.closed then s else if ltb r.spec.deadline w.now then finalize fl w s r else s

  unfoldable pub expire : World F → Scheduler F → List String → Scheduler F
  expire w s [] = s
  expire w s (id ∷ ids) = expire w (expire_one w s (lookup id s.rounds)) ids

  unfoldable pub expire_all : World F → Scheduler F → Scheduler F
  unfolding expire
  expire_all w s = expire w s (map (λ (id, r). id) s.rounds)

  module _ (marshal : Check → Option String) (encode : ProbeTaskPayload → Option String) where
    unfoldable pub cycle_monitor : World F → Scheduler F → Turn F → Scheduler F
    cycle_monitor world s t =
        let m = t.monitor in
        let w = record world { fresh_id = t.round_id } in
        let inflight = is_download m.type && has_in_flight_round s m.id in
        let p = plan_round (lookup m.id s.monitors) w.now (m.period * second) inflight in
        let planned = record s { monitors = insert m.id p.next s.monitors } in
        if is_push m.type
        then cycle_push fl w s m t.note
        else if p.fire
        then create_round fl marshal encode w planned m p.plan_at
        else planned

    unfoldable pub cycle_monitors : World F → Scheduler F → List (Turn F) → Scheduler F
    cycle_monitors w s [] = s
    cycle_monitors w s (t ∷ ts) = cycle_monitors w (cycle_monitor w s t) ts

    -- Nothing is finalized on a tick at which the monitors cannot be read.
    unfoldable pub cycle : World F → Scheduler F → Option ℕ → Option (List (Turn F)) → Scheduler F
    cycle w s grace none = refresh_grace grace s
    cycle w s grace (some ts) = expire_all w (cycle_monitors w (refresh_grace grace s) ts)
