-- ===== src/Examples/Flights.antt =====
-- One round in flight: its samples, its waiters, and the frames that go out for it.
use uptime_mesh.Prelude.{
  ℕ, ◌≡◌, refl, ◌+◌, ◌≤◌, true, false, List, [], ◌∷◌, some, lookup, is_some, mem?,
}
use uptime_mesh.Prelude.Float64.{whole}
use uptime_mesh.Scheduler.Flight.{
  InFlightRound, new_round, mark_dispatched, is_dispatched, undispatched_agents,
}
use uptime_mesh.Scheduler.Flight.Waiters.{
  Call, tasks, marks, results, awaits, closes, calls, NoneStranded, Stands, calls_safe,
}
use uptime_mesh.Scheduler.Dispatch.{send_task, send_all, resend, serial_run}
use uptime_mesh.Scheduler.Dispatch.Again.{resend_in_time}
use uptime_mesh.Scheduler.Dispatch.Serial.{GoesOn, serial_run_one_out}
use uptime_mesh.Store.Id.{id_from_hex}
use uptime_mesh.Examples.Data.{tokyo, paris, lima, world, spec, fine, broken, task, flight, unheard}

abbrev all_in : InFlightRound ℕ
all_in = record flight { results = (lima, fine) ∷ (paris, broken) ∷ (tokyo, fine) ∷ [] }

-- Two goroutines wait for paris, whose sample comes in after that of tokyo; then the round is closed.
abbrev interleaving : List (Call ℕ)
interleaving =
    tasks task
    ∷ marks paris
    ∷ awaits paris
    ∷ results tokyo fine
    ∷ awaits paris
    ∷ results paris broken
    ∷ closes (lima ∷ []) []
    ∷ results lima fine
    ∷ []

calls_safe_example :
    NoneStranded whole (calls whole (new_round spec) interleaving)
    × Stands whole (calls whole (new_round spec) interleaving)
calls_safe_example = calls_safe whole spec interleaving

one_unreachable : undispatched_agents (send_all world unheard task spec.agent_ids).0 ≡ lima ∷ []
unfolding send_all send_task mark_dispatched id_from_hex undispatched_agents mem? lookup
one_unreachable = refl

resend_in_time_example :
    (id_from_hex tokyo ≡ some tokyo)
    × (world.accepts tokyo ≡ true)
    × (mem? tokyo spec.agent_ids ≡ true)
    × (is_dispatched unheard tokyo ≡ false)
    × (is_some (lookup tokyo unheard.results) ≡ false)
    × (unheard.closed ≡ false)
    × (spec.serial_dispatch ≡ false)
    × (world.now + spec.probe_timeout ≤ spec.deadline)
    × (unheard.task ≡ some task)
unfolding resend id_from_hex undispatched_agents mem? lookup
resend_in_time_example = resend_in_time world tokyo unheard (tokyo, task) refl

serial_run_one_out_example :
    GoesOn world task unheard (serial_run world unheard task (tokyo ∷ paris ∷ lima ∷ [])).0
serial_run_one_out_example = serial_run_one_out world task unheard (tokyo ∷ paris ∷ lima ∷ []) refl
