-- ===== src/Examples/Results.antt =====
-- Results that come in: too late, twice, and from outside.
use uptime_mesh.Prelude.{ℕ, ◌≡◌, true, false, not, [], some, lookup, if◌then◌else◌}
use uptime_mesh.Prelude.Float64.{whole}
use uptime_mesh.Alert.{breached}
use uptime_mesh.Store.Id.{id_from_hex}
use uptime_mesh.Store.Rounds.{insert_result}
use uptime_mesh.Scheduler.Round.{RoundState, Aggregation}
use uptime_mesh.Scheduler.World.{Scheduler}
use uptime_mesh.Scheduler.Intake.{ProbeResultPayload, handle_result}
use uptime_mesh.Scheduler.Intake.Stored.{result_row, handle_result-results}
use uptime_mesh.Scheduler.Finalize.{closing}
use uptime_mesh.Scheduler.Push.{push_flight, push_threshold}
use uptime_mesh.Scheduler.Push.Verdict.{verdict, push_verdict}
use uptime_mesh.Examples.Data.{
  the_round, the_monitor, tokyo, monitor, world, flight, scheduler, whole-Lawful,
}

abbrev again : ProbeResultPayload ℕ
again = record {
  round_id = the_round;
  monitor_id = the_monitor;
  ok = false;
  latency_ms = 5;
  http_status = 500;
  error = "status 500";
  speed_kbps = 0;
}

abbrev idle : Scheduler ℕ
idle = record scheduler { rounds = [] }

-- Tokyo has reported to the round before.
handle_result-results_example :
    (handle_result whole world scheduler tokyo again).db.results
    ≡ insert_result scheduler.db.results
        (result_row the_round the_monitor tokyo again (some flight))
        world.now
unfolding id_from_hex lookup
handle_result-results_example = handle_result-results whole world scheduler tokyo again

push_verdict_example :
    (a : Aggregation ℕ) × (closing whole world
        (push_flight whole the_round monitor false 12 7_000_000_000 "" false).0
      ≡ some a)
    × (a.valid ≡ 1)
    × (a.state ≡ some RoundState.closed)
    × (a.metric_value ≡ (if verdict false false then 100 else 0))
    × (breached whole
          (record { valid = true; value = a.metric_value; success_rate = a.success_rate })
          (push_threshold whole)
        ≡ not (verdict false false))
push_verdict_example =
    push_verdict whole world the_round monitor false 12 7_000_000_000 "" false whole-Lawful
