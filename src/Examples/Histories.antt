-- ===== src/Examples/Histories.antt =====
-- A history of the scheduler: a tick, two agents that come back, a result, a report, another tick.
use uptime_mesh.Prelude.{ℕ, ◌≤◌, refl, true, List, [], ◌∷◌, Option, none, some, String, lookup}
use uptime_mesh.Prelude.Float64.{whole}
use uptime_mesh.Store.Id.{id_from_hex}
use uptime_mesh.Scheduler.Monitor.{Check}
use uptime_mesh.Scheduler.World.{World}
use uptime_mesh.Scheduler.Intake.{ProbeResultPayload}
use uptime_mesh.Scheduler.Dispatch.{ProbeTaskPayload, kick_all}
use uptime_mesh.Scheduler.Cycle.{
  Turn, refresh_grace, cycle_monitors, expire_one, expire, expire_all, cycle,
}
use uptime_mesh.Scheduler.Registered.{Registered}
use uptime_mesh.Scheduler.Registered.Ticks.{
  Handling, result_in, comes_online, reports, ticks, kicks, after, history, history-Registered,
  history_in_time,
}
use uptime_mesh.Examples.Data.{
  the_round, the_monitor, tokyo, lima, monitor, world, flight, scheduler,
}
use uptime_mesh.Examples.Ticks.{flight-Registered}

abbrev marshal : Check → Option String
marshal c = some "{}"

abbrev encode : ProbeTaskPayload → Option String
encode p = some "{}"

abbrev turn : Turn ℕ
turn = record { monitor = monitor; round_id = the_round; note = "" }

abbrev later : World ℕ
later = record world { now = 630_000_000_000; fresh_id = "6aa3eaea721b7851dac0d002" }

abbrev tokyo_fine : ProbeResultPayload ℕ
tokyo_fine = record {
  round_id = the_round;
  monitor_id = the_monitor;
  ok = true;
  latency_ms = 40;
  http_status = 200;
  error = "";
  speed_kbps = 0;
}

abbrev one_day : List (Handling whole marshal encode)
one_day =
    ticks world none (some (turn ∷ []))
    ∷ comes_online world lima
    ∷ result_in world tokyo tokyo_fine
    ∷ reports later monitor true 12 ""
    ∷ ticks later (some 5) (some [])
    ∷ []

history-Registered_example : Registered (history whole marshal encode scheduler one_day)
unfolding id_from_hex
history-Registered_example =
    history-Registered whole marshal encode scheduler one_day
      ((refl, tt), (tt, (tt, (refl, (tt, tt))))) flight-Registered

history_in_time_example : world.now ≤ flight.spec.deadline
unfolding after history cycle expire expire_one expire_all cycle_monitors refresh_grace kick_all
    lookup
history_in_time_example =
    history_in_time whole marshal encode scheduler (kicks (the_monitor ∷ []) ∷ []) world none []
      flight-Registered (tt, tt) tt the_round flight refl
