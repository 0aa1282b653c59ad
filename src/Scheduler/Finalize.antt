-- ===== src/Scheduler/Finalize.antt =====
-- `finalize` and `applyAlert` of dashboard/internal/scheduler/scheduler.go: a round is closed, and
-- the alert state of its monitor moves on. One call is one step here.
pub mod Missing
pub mod Once
pub mod Restart
pub mod Results
use uptime_mesh.Prelude.{
  ℕ, ◌-◌, ◌*◌, ◌/◌, Bool, true, false, not, ◌&&◌, List, [], ◌∷◌, ◌++◌, Option, none, some, String,
  ltb, if◌then◌else◌, delete,
}
use uptime_mesh.Prelude.Float64.{Float64}
use uptime_mesh.Alert.{AlertState, Event, State, is_up}
use uptime_mesh.Alert
use uptime_mesh.Store.Id.{id_from_hex}
use uptime_mesh.Store.Rounds.{RowState, Round, RoundClose, close_round}
use uptime_mesh.Store.States.{
  LastRound, MonitorState, MonitorStateChange, hour_bucket, get_monitor_state, put_monitor_state,
  insert_state_change, find_last_state_change_by_to_state, add_hourly_stat,
}
use uptime_mesh.Store.{unix_sec}
use uptime_mesh.Scheduler.Plan.{second}
use uptime_mesh.Scheduler.Round.{RoundSpec, RoundState, Aggregation, avg_speed_kbps}
use uptime_mesh.Scheduler.Flight.{InFlightRound, is_dispatched, pending_agents, close}
use uptime_mesh.Scheduler.Monitor.{Monitor}
use uptime_mesh.Scheduler.World.{Scheduler, World, Notice}

-- `mustID`
unfoldable pub must_id : String → String
unfolding id_from_hex
must_id hex = elim (id_from_hex hex) [ none ↦ "" | some id ↦ id ]

abbrev pub is_unknown : Option RoundState → Bool
is_unknown (some RoundState.unknown) = true
is_unknown _ = false

-- The two groups of the loop over the pending agents: an id that cannot be parsed, or that answers
-- no ping, is dead; one that answers and was never given the task is undispatched.
unfoldable pub finds_dead : {F : Type 0} → World F → String → Bool
finds_dead w sid = elim (id_from_hex sid) [ none ↦ true | some aid ↦ not (w.online aid) ]

unfoldable pub finds_undispatched : {F : Type 0} → World F → InFlightRound F → String → Bool
unfolding finds_dead
finds_undispatched w r sid = not (finds_dead w sid) && not (is_dispatched r sid)

unfoldable pub classify :
    {F : Type 0} → World F → InFlightRound F → List String → List String × List String
unfolding finds_undispatched
classify w r [] = ([], [])
classify w r (sid ∷ sids) =
    let (dead, undispatched) = classify w r sids in
    (
      if finds_dead w sid then sid ∷ dead else dead,
      if finds_undispatched w r sid then sid ∷ undispatched else undispatched,
    )

module _ {F : Type 0} (fl : Float64 F) where
  -- `alarmDurationSec`; stored times have whole seconds, `at` nanoseconds, a negative span is 0.
  unfoldable pub alarm_duration_sec : World F → Scheduler F → String → ℕ → ℕ
  alarm_duration_sec w s monitor_id at =
      if w.change_read_fails
      then 0
      else elim (find_last_state_change_by_to_state s.db.changes monitor_id AlertState.down) [
        | none ↦ 0
        | some prev ↦ (at - prev.changed_at * second) / second
      ]

  abbrev last_round : Option RoundState → LastRound
  last_round (some RoundState.closed) = LastRound.closed
  last_round (some RoundState.unknown) = LastRound.unknown
  last_round none = LastRound.never

  notify : Scheduler F → Monitor F → Aggregation F → Option (Event F) → MonitorState F → Scheduler F
  notify s m agg ev cur = record s {
    finalized = s.finalized ++ (record { monitor = m; agg = agg; event = ev; state = cur } ∷ []);
  }

  -- The row of a flip.
  change_row :
      RoundSpec F → Aggregation F → Monitor F → AlertState → State → ℕ → ℕ → MonitorStateChange F
  change_row spec agg m from next duration now = record {
    monitor_id = m.id;
    round_id = must_id spec.round_id;
    from_state = from;
    to_state = next.alert_state;
    success_rate = agg.success_rate;
    speed_kbps = avg_speed_kbps fl agg;
    duration_sec = duration;
    changed_at = now;
  }

  -- After the state is written: a flip leaves a row and the event gets its identity.
  record_flip :
      World F
      → Scheduler F
      → RoundSpec F
      → Aggregation F
      → Monitor F
      → AlertState
      → State
      → MonitorState F
      → Option (Event F)
      → Scheduler F
  unfolding notify change_row
  record_flip w s spec agg m from next cur none = notify s m agg none cur
  record_flip w s spec agg m from next cur (some ev) =
      let duration = if is_up next.alert_state then alarm_duration_sec w s m.id w.now else 0 in
      let row = change_row spec agg m from next duration w.now in
      let changes =
        if w.change_write_fails then s.db.changes else insert_state_change s.db.changes row w.now in
      notify (record s { db = record (s.db) { changes = changes } }) m agg
        (some (record ev {
          round_id = spec.round_id;
          from_state = from;
          changed_at = w.now;
          duration_sec = duration;
        }))
        cur

  -- The monitor's state after the round, its time not yet set.
  unfoldable pub moved : MonitorState F → State → Aggregation F → MonitorState F
  moved cur next agg = record cur {
    alert_state = next.alert_state;
    consecutive = next.consecutive;
    last_round_state = last_round agg.state;
    last_success_rate = if is_unknown agg.state then cur.last_success_rate else agg.success_rate;
    last_speed_kbps = if is_unknown agg.state then cur.last_speed_kbps else avg_speed_kbps fl agg;
  }

  -- What the state machine makes of the round.
  unfoldable pub judge : MonitorState F → RoundSpec F → Aggregation F → State × Option (Event F)
  judge cur spec agg =
      Alert.apply fl (record { alert_state = cur.alert_state; consecutive = cur.consecutive })
        (record {
          valid = not (is_unknown agg.state);
          value = agg.metric_value;
          success_rate = agg.success_rate;
        })
        spec.threshold spec.consecutive

  unfoldable pub advance_alert :
      World F → Scheduler F → RoundSpec F → Aggregation F → Monitor F → MonitorState F → Scheduler F
  unfolding record_flip moved
  advance_alert w s spec agg m cur =
      let (next, ev) = judge cur spec agg in
      let cur' = moved cur next agg in
      if w.state_write_fails
      then s
      else record_flip w
          (record s { db = record (s.db) { states = put_monitor_state s.db.states cur' w.now } })
          spec agg m cur.alert_state next (record cur' { updated_at = w.now }) ev

  unfoldable pub apply_alert : World F → Scheduler F → RoundSpec F → Aggregation F → Scheduler F
  apply_alert w s spec agg = elim (w.find_monitor (must_id spec.monitor_id)) [
    | none ↦ s
    | some m ↦
        if w.state_read_fails
        then s
        else advance_alert w s spec agg m (get_monitor_state fl s.db.states m.id).0
  ]

  -- The fields of the closing, from the aggregation.
  unfoldable pub close_of : Aggregation F → RoundClose F
  close_of agg = record {
    state = if is_unknown agg.state then RowState.unknown else RowState.closed;
    success = agg.success;
    valid = agg.valid;
    success_rate = agg.success_rate;
    latency_sum_ms = agg.latency_sum_ms;
    latency_count = agg.latency_count;
    speed_sum_kbps = agg.speed_sum_kbps;
    speed_count = agg.speed_count;
    missing_alive = agg.missing_alive;
    missing_dead = agg.missing_dead;
    missing_undispatched = agg.missing_undispatched;
  }

  -- `AddHourlyStat` with the counts of one round.
  unfoldable pub count_hour : World F → Scheduler F → RoundSpec F → Aggregation F → Scheduler F
  count_hour w s spec agg =
      let hourly = add_hourly_stat fl s.db.hourly (record {
        monitor_id = must_id agg.monitor_id;
        hour = hour_bucket spec.scheduled_at;
        rounds = 1;
        valid = agg.valid;
        success = agg.success;
        latency_sum_ms = agg.latency_sum_ms;
        latency_count = agg.latency_count;
        updated_at = unix_sec w.now;
      }) in
      if w.hourly_fails then s else record s { db = record (s.db) { hourly = hourly } }

  -- The first closing of the row: the hour's counters, and the alert.
  unfoldable pub first_closing : World F → Scheduler F → RoundSpec F → Aggregation F → Scheduler F
  first_closing w s spec agg = apply_alert w (count_hour w s spec agg) spec agg

  -- The round leaves the open ones, and its row is rewritten.
  abbrev pub taken_out : Scheduler F → String → List (Round F) → Scheduler F
  taken_out s oid rows = record s {
    rounds = delete oid s.rounds;
    db = record (s.db) { rounds = rows };
  }

  -- What follows `flight.Close`.
  unfoldable pub settle : World F → Scheduler F → String → RoundSpec F → Aggregation F → Scheduler F
  settle w s oid spec agg =
      let (rows, updated) = close_round s.db.rounds oid (close_of agg) w.now in
      if w.close_fails
      then taken_out s oid s.db.rounds
      else if updated
      then first_closing w (taken_out s oid rows) spec agg
      else taken_out s oid rows

  -- The loop over the pending agents, and `flight.Close`.
  unfoldable pub closing : World F → InFlightRound F → Option (Aggregation F)
  unfolding classify
  closing w r =
      let (dead, undispatched) = classify w r (pending_agents r) in (close fl r dead undispatched).1

  -- A closed round with no aggregation, a fault of the source, leaves the scheduler as it was.
  unfoldable pub finalize : World F → Scheduler F → InFlightRound F → Scheduler F
  finalize w s r = elim (id_from_hex r.spec.round_id) [
    | none ↦ s
    | some oid ↦ elim (closing w r) [ none ↦ s | some agg ↦ settle w s oid r.spec agg ]
  ]
