-- ===== src/Examples/Rounds.antt =====
-- Aggregations of a round of three agents, and what a start recovers of it.
use uptime_mesh.Prelude.{
  ℕ, ◌≡◌, refl, ◌==◌, true, false, List, [], ◌∷◌, some, count_if, length, mem?, lookup,
  if◌then◌else◌,
}
use uptime_mesh.Prelude.Float64.{whole}
use uptime_mesh.Store.Rounds.{CheckResult}
use uptime_mesh.Store.Orphans.{OrphanRound, recount}
use uptime_mesh.Scheduler.Round.{RoundState, is_speed, eff_ok, add_agent, aggregate}
use uptime_mesh.Scheduler.Round.Missing.{reported}
use uptime_mesh.Scheduler.Round.Counts.{counted, succeeded, aggregate_counts}
use uptime_mesh.Scheduler.Round.Recovered.{recount-aggregate}
use uptime_mesh.Examples.Data.{the_round, the_monitor, tokyo, paris, lima, spec, one_in, two_in}

-- Tokyo reported, paris stays silent with the task, lima is dead.
silent_counts : (aggregate whole spec one_in (lima ∷ []) []).valid ≡ 2
unfolding aggregate add_agent lookup mem?
silent_counts = refl

aggregate_counts_example :
    let t = aggregate whole spec one_in (lima ∷ []) [] in
    (t.valid ≡ count_if (counted one_in (lima ∷ []) []) spec.agent_ids)
    × (t.success ≡ count_if (succeeded spec one_in) spec.agent_ids)
    × (t.latency_count ≡ count_if (reported one_in) spec.agent_ids)
    × (t.speed_count ≡ (if is_speed spec.metric then t.valid else 0))
    × (t.total_agents ≡ length spec.agent_ids)
    × (t.state ≡ some (if t.valid == 0 then RoundState.unknown else RoundState.closed))
aggregate_counts_example = aggregate_counts whole spec one_in (lima ∷ []) []

-- The rows of the two samples.
abbrev rows : List (CheckResult ℕ)
rows =
    record {
      round_id = the_round;
      monitor_id = the_monitor;
      agent_id = paris;
      ok = false;
      latency_ms = 10;
      http_status = 500;
      error = "status 500";
      speed_kbps = 0;
      late = false;
      scheduled_at = 600;
      created_at = 601;
    }
    ∷ record {
      round_id = the_round;
      monitor_id = the_monitor;
      agent_id = tokyo;
      ok = true;
      latency_ms = 40;
      http_status = 200;
      error = "";
      speed_kbps = 0;
      late = false;
      scheduled_at = 600;
      created_at = 602;
    }
    ∷ []

abbrev orphan : OrphanRound
orphan = record {
  id = the_round;
  monitor_id = the_monitor;
  assigned = tokyo ∷ paris ∷ lima ∷ [];
  scheduled_at = 600;
  download = false;
}

recount-aggregate_example :
    let u = recount whole orphan rows in
    let a = aggregate whole spec two_in spec.agent_ids [] in
    (u.valid ≡ a.valid)
    × (u.success ≡ a.success)
    × (u.latency_count ≡ a.latency_count)
    × (u.speed_count ≡ a.speed_count)
    × (u.missing_dead ≡ a.missing_dead)
unfolding mem? eff_ok
recount-aggregate_example =
    recount-aggregate whole spec orphan two_in rows (refl, refl, (refl, refl, tt))
      (refl, (refl, tt)) (refl, (refl, (refl, tt))) refl refl
