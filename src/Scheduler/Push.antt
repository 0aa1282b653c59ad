-- ===== src/Scheduler/Push.antt =====
-- dashboard/internal/scheduler/push.go: monitors whose results are reported from outside. Such a
-- round has one sample, of the stand-in agent "external", and is closed as soon as it is made.
pub mod Verdict
use uptime_mesh.Prelude.{
  ℕ, ◌+◌, ◌-◌, ◌*◌, ◌/◌, Bool, true, false, ◌||◌, List, [], ◌∷◌, Option, none, some, String, str_eq,
  ◌==◌, ltb, if◌then◌else◌, lookup, insert,
}
use uptime_mesh.Prelude.Float64.{Float64}
use uptime_mesh.Store.Rounds.{Round, RowState, CheckResult, insert_round}
use uptime_mesh.Store.{unix_sec}
use uptime_mesh.Scheduler.Plan.{MonitorSlot, second}
use uptime_mesh.Scheduler.Round.{RoundSpec, RoundMetric, Sample, eff_ok}
use uptime_mesh.Scheduler.Flight.{InFlightRound, new_round, mark_dispatched, add_result}
use uptime_mesh.Scheduler.Monitor.{Monitor}
use uptime_mesh.Scheduler.World.{Scheduler, World}
use uptime_mesh.Scheduler.Finalize.{finalize}
use uptime_mesh.Scheduler.Intake.{store_row}

-- `PushAgentID`
abbrev pub push_agent_id : String
push_agent_id = "external"

-- `pushNote`: the wording of a failure with no reason of its own is a constant of the source.
unfoldable pub push_note : Bool → String → String
push_note ok note = if ok then "" else if str_eq note "" then "外部上报为故障状态" else note

module _ {F : Type 0} (fl : Float64 F) where
  -- `store.PushThreshold`
  abbrev pub push_threshold : F
  push_threshold = fl.of_int 100

  unfoldable pub push_spec : String → Monitor F → ℕ → Bool → RoundSpec F
  push_spec round_id m at invert = record {
    round_id = round_id;
    monitor_id = m.id;
    agent_ids = push_agent_id ∷ [];
    deadline = at;
    scheduled_at = at;
    threshold = push_threshold;
    consecutive = m.consecutive;
    metric = RoundMetric.unset;
    serial_dispatch = false;
    invert = invert;
    probe_timeout = 0;
  }

  abbrev pub push_row : String → Monitor F → ℕ → Round F
  push_row round_id m at = record {
    id = round_id;
    monitor_id = m.id;
    assigned_agent_ids = [];
    scheduled_at = at;
    deadline = at;
    closed_at = 0;
    state = RowState.opened;
    success = 0;
    valid = 0;
    total_agents = 0;
    success_rate = fl.of_int 0;
    latency_sum_ms = fl.of_int 0;
    latency_count = 0;
    speed_sum_kbps = fl.of_int 0;
    speed_count = 0;
    missing_alive = [];
    missing_dead = [];
    missing_undispatched = [];
    created_at = 0;
  }

  -- The open round with the report in it, as `finalize` gets it.
  unfoldable pub push_flight :
      String → Monitor F → Bool → F → ℕ → String → Bool → InFlightRound F × Bool
  unfolding push_spec
  push_flight round_id m ok latency_ms at note invert =
      add_result (mark_dispatched (new_round (push_spec round_id m at invert)) push_agent_id)
        push_agent_id
        (record {
          ok = ok;
          latency_ms = latency_ms;
          speed_kbps = fl.of_int 0;
          err_text = push_note ok note;
        })

  unfoldable pub push_result : String → Monitor F → Bool → F → ℕ → String → Bool → CheckResult F
  push_result round_id m ok latency_ms at note invert = record {
    round_id = round_id;
    monitor_id = m.id;
    agent_id = push_agent_id;
    ok = eff_ok (push_spec round_id m at invert) ok;
    latency_ms = latency_ms;
    http_status = 0;
    error = push_note ok note;
    speed_kbps = fl.of_int 0;
    late = false;
    scheduled_at = at;
    created_at = 0;
  }

  unfoldable pub push_round :
      World F → Scheduler F → Monitor F → Bool → F → ℕ → String → Bool → Scheduler F
  push_round w s m ok latency_ms at note invert =
      let id = w.fresh_id in
      let (flight, taken) = push_flight id m ok latency_ms at note invert in
      let opened = record s {
        db = record (s.db) { rounds = insert_round s.db.rounds (push_row id m at) w.now };
        rounds = insert id flight s.rounds;
      } in
      if w.round_insert_fails
      then s
      else if taken
      then finalize fl w (store_row fl w opened (push_result id m ok latency_ms at note invert))
          flight
      else opened

  -- `ReportPush`: a failure to record the time of the report is only logged.
  unfoldable pub report_push : World F → Scheduler F → Monitor F → Bool → F → String → Scheduler F
  report_push w s m ok latency_ms note =
      let noted = record s {
        db = record (s.db) { last_pushes = insert m.id (unix_sec w.now) s.db.last_pushes };
      } in
      push_round w (if w.push_time_fails then s else noted) m ok latency_ms w.now note m.invert_mode

  -- The guards of `cyclePush`: the baseline, the silence, and the throttle of one round a period.
  unfoldable pub silence_due : Monitor F → Option MonitorSlot → ℕ → Bool
  silence_due m slot now =
      let baseline = if m.last_push_at == 0 then m.created_at else m.last_push_at in
      let period = m.period * second in
      if baseline == 0
      then false
      else if period == 0 || ltb now (baseline + period)
      then false
      else elim slot [
        | none ↦ true
        | some last ↦ if ltb now (last.due + period) then false else true
      ]

  -- `note` is the text that tells how long nothing was reported.
  unfoldable pub cycle_push : World F → Scheduler F → Monitor F → String → Scheduler F
  cycle_push w s m note =
      if silence_due m (lookup m.id s.monitors) w.now
      then push_round w
          (record s {
            monitors = insert m.id (record { due = w.now; period = m.period }) s.monitors;
          })
          m false (fl.of_int 0) w.now note false
      else s
