-- ===== src/Examples/Closings.antt =====
-- Rounds that are closed: twice, with silent agents, with nobody served, and at a start.
use uptime_mesh.Prelude.{
  ℕ, ◌≡◌, refl, ◌&&◌, ◌||◌, true, false, not, [], ◌∷◌, some, keep, count_if, lookup, mem?,
}
use uptime_mesh.Prelude.Float64.{whole}
use uptime_mesh.Alert.{AlertState}
use uptime_mesh.Store.Id.{id_from_hex}
use uptime_mesh.Store.Rounds.{RowState, RoundClose, is_open}
use uptime_mesh.Store.States.{LastRound, MonitorState}
use uptime_mesh.Store.Orphans.{Books, Faults, close_orphan_open_rounds}
use uptime_mesh.Store.Orphans.Startup.{close_orphans_none_open}
use uptime_mesh.Scheduler.Round.{RoundState, Aggregation, aggregate}
use uptime_mesh.Scheduler.Round.Missing.{reported}
use uptime_mesh.Scheduler.Round.Counts.{succeeded}
use uptime_mesh.Scheduler.Flight.{is_dispatched}
use uptime_mesh.Scheduler.Finalize.{finds_dead, closing, finalize}
use uptime_mesh.Scheduler.Finalize.Missing.{dead, undispatched, closing_open, closing_missing}
use uptime_mesh.Scheduler.Finalize.Once.{finalize_once}
use uptime_mesh.Scheduler.Finalize.Restart.{NoAlert, Unheard, finalize-Unheard}
use uptime_mesh.Examples.Data.{
  the_round, the_monitor, lima, world, spec, flight, unheard, open_row, scheduler,
}

finalize_once_example :
    let t = finalize whole world scheduler flight in
    let u = finalize whole world t unheard in (u.db ≡ t.db) × (u.finalized ≡ t.finalized)
unfolding id_from_hex
finalize_once_example =
    finalize_once whole world world scheduler flight unheard the_round
      (aggregate whole spec flight.results (dead world flight) (undispatched world flight)) refl
      refl (closing_open whole world flight refl) refl

closing_missing_example :
    (a : Aggregation ℕ) × (closing whole world flight ≡ some a)
    × (a.missing_dead
        ≡ keep (λ id. not (reported flight.results id) && finds_dead world id) spec.agent_ids)
    × (a.missing_undispatched
        ≡ keep
            (λ id.
              not (reported flight.results id)
              && (not (finds_dead world id) && not (is_dispatched flight id)))
            spec.agent_ids)
    × (a.missing_alive
        ≡ keep
            (λ id.
              not (reported flight.results id)
              && (not (finds_dead world id) && is_dispatched flight id))
            spec.agent_ids)
    × (a.valid
        ≡ count_if
            (λ id.
              reported flight.results id || (not (finds_dead world id) && is_dispatched flight id))
            spec.agent_ids)
    × (a.success ≡ count_if (succeeded spec flight.results) spec.agent_ids)
closing_missing_example = closing_missing whole world flight refl

unheard-Unheard : Unheard unheard
unfolding lookup mem?
unheard-Unheard k m = (refl, refl)

finalize-Unheard_example :
    NoAlert whole scheduler (finalize whole world scheduler unheard)
    × ((a : Aggregation ℕ) × (closing whole world unheard ≡ some a)
        × (a.state ≡ some RoundState.unknown))
finalize-Unheard_example = finalize-Unheard whole world scheduler unheard refl unheard-Unheard

abbrev as_closed : RoundClose ℕ
as_closed = record {
  state = RowState.closed;
  success = 1;
  valid = 2;
  success_rate = 50;
  latency_sum_ms = 50;
  latency_count = 2;
  speed_sum_kbps = 0;
  speed_count = 0;
  missing_alive = [];
  missing_dead = lima ∷ [];
  missing_undispatched = [];
}

abbrev as_unknown : RoundClose ℕ
as_unknown = record as_closed { state = RowState.unknown; success = 0; valid = 0 }

-- The samples cannot be read.
abbrev faults : Faults
faults = record {
  list_fails = false;
  sweep_fails = false;
  results_fails = λ id. true;
  close_fails = λ id. false;
  hourly_fails = λ id. false;
}

abbrev books : Books ℕ
books = record { rounds = open_row ∷ []; hourly = [] }

close_orphans_none_open_example :
    let t = (close_orphan_open_rounds whole faults (λ id. false) [] 7_000_000_000 books).0 in
    count_if (λ r. is_open r.state) t.rounds ≡ 0
close_orphans_none_open_example =
    close_orphans_none_open whole faults (λ id. false) [] 7_000_000_000 books refl

abbrev down_since : MonitorState ℕ
down_since = record {
  id = the_monitor;
  alert_state = AlertState.down;
  consecutive = 2;
  last_round_state = LastRound.closed;
  last_success_rate = 0;
  last_speed_kbps = 0;
  updated_at = 0;
}
