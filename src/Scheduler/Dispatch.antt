-- ===== src/Scheduler/Dispatch.antt =====
-- How a round of dashboard/internal/scheduler/scheduler.go gets to the agents: `createRound`,
-- `sendTask`, `AgentOnline`, `dispatchSerial`. The JSON encoders are parameters.
pub mod Sending
pub mod Again
pub mod Serial
use uptime_mesh.Prelude.{
  ℕ, ◌+◌, ◌*◌, Bool, true, false, not, ◌&&◌, ◌||◌, List, [], ◌∷◌, ◌++◌, Option, none, some, String,
  str_eq, ltb, length, if◌then◌else◌, any, is_some, mem?, insert, delete, keep,
}
use uptime_mesh.Prelude.Float64.{Float64}
use uptime_mesh.CheckConfig.{MonitorType, to_kbps}
use uptime_mesh.Store.Id.{id_from_hex}
use uptime_mesh.Store.Rounds.{Round, RowState, insert_round}
use uptime_mesh.Store.{unix_sec}
use uptime_mesh.Scheduler.Plan.{second}
use uptime_mesh.Scheduler.Round.{RoundSpec, RoundMetric}
use uptime_mesh.Scheduler.Flight.{
  Envelope, InFlightRound, Await, new_round, set_task, mark_dispatched, is_dispatched,
  undispatched_agents, await_result,
}
use uptime_mesh.Scheduler.Monitor.{Monitor, Check, check_payload, assigned_agents}
use uptime_mesh.Scheduler.World.{Scheduler, World}
use uptime_mesh.Scheduler.Finalize.{must_id}

abbrev pub pong_timeout : ℕ
pong_timeout = 3 * second

abbrev pub serial_dispatch_slack : ℕ
serial_dispatch_slack = 3 * second

abbrev pub is_download : MonitorType → Bool
is_download MonitorType.download = true
is_download _ = false

-- shared/protocol/protocol.go; `check` is the JSON text.
pub record ProbeTaskPayload : Type 0 where
  pub round_id : String
  pub monitor_id : String
  pub monitor_name : String
  pub monitor_type : MonitorType
  pub check : String
  pub deadline_unix : ℕ

unfoldable pub with_frame :
    Option (String × Envelope) → List (String × Envelope) → List (String × Envelope)
with_frame none frames = frames
with_frame (some f) frames = f ∷ frames

abbrev pub blocks : Await → Bool
blocks Await.blocked = true
blocks (Await.done b) = false

abbrev pub is_empty : List String → Bool
is_empty [] = true
is_empty (x ∷ xs) = false

module _ {F : Type 0} where
  -- `hasInFlightRound`
  unfoldable pub has_in_flight_round : Scheduler F → String → Bool
  has_in_flight_round s monitor_id = any (λ (id, r). str_eq r.spec.monitor_id monitor_id) s.rounds

  unfoldable pub kick_all : Scheduler F → List String → Scheduler F
  kick_all s [] = s
  kick_all s (id ∷ ids) = kick_all (record s { monitors = delete id s.monitors }) ids

  unfoldable pub kick : Scheduler F → String → Scheduler F
  unfolding kick_all
  kick s monitor_id = kick_all s (monitor_id ∷ [])

  -- A frame that went out, with its receiver; the result of `sendTask` is whether there is one.
  unfoldable pub send_task :
      World F → InFlightRound F → String → Envelope → InFlightRound F × Option (String × Envelope)
  send_task w r agent task = elim (id_from_hex agent) [
    | none ↦ (r, none)
    | some aid ↦ if w.accepts aid then (mark_dispatched r agent, some (aid, task)) else (r, none)
  ]

  -- The loop at the end of `createRound`.
  unfoldable pub send_all :
      World F
      → InFlightRound F
      → Envelope
      → List String
      → InFlightRound F × List (String × Envelope)
  send_all w r task [] = (r, [])
  send_all w r task (id ∷ ids) =
      let (next, frame) = send_task w r id task in
      let (last, frames) = send_all w next task ids in (last, with_frame frame frames)

  unfoldable pub per_probe_budget : Monitor F → ℕ
  per_probe_budget m = m.timeout * second + serial_dispatch_slack

  unfoldable pub deadline_of : Scheduler F → Monitor F → List String → ℕ → ℕ
  unfolding per_probe_budget
  deadline_of s m ids now =
      if is_download m.type
      then now + (length ids * per_probe_budget m + s.grace + pong_timeout)
      else now + (m.timeout * second + s.grace + pong_timeout)

  -- What `AgentOnline` does to one open round.
  unfoldable pub resend :
      World F → String → InFlightRound F → InFlightRound F × Option (String × Envelope)
  unfolding send_task
  resend w agent r =
      if r.spec.serial_dispatch || r.closed || is_dispatched r agent
      then (r, none)
      else if not (mem? agent (undispatched_agents r))
      then (r, none)
      else if ltb r.spec.deadline (w.now + r.spec.probe_timeout)
      then (r, none)
      else elim r.task [
        | none ↦ (r, none)
        | some task ↦ elim (w.find_monitor (must_id r.spec.monitor_id)) [
          | none ↦ (r, none)
          | some m ↦ send_task w r agent task
        ]
      ]

  unfoldable pub resend_all :
      World F
      → String
      → List (String × InFlightRound F)
      → List (String × InFlightRound F) × List (String × Envelope)
  resend_all w agent [] = ([], [])
  resend_all w agent ((id, r) ∷ rs) =
      let (next, frame) = resend w agent r in
      let (rest, frames) = resend_all w agent rs in ((id, next) ∷ rest, with_frame frame frames)

  unfoldable pub agent_online : World F → Scheduler F → String → Scheduler F
  agent_online w s agent =
      let (rounds, frames) = resend_all w agent s.rounds in
      record s { rounds = rounds; sent = s.sent ++ frames }

  -- `dispatchSerial` up to where it blocks: the round, the frames that went out, and the agent it
  -- waits for with those that are left. When the wait is over it goes on with those.
  unfoldable pub serial_run :
      World F
      → InFlightRound F
      → Envelope
      → List String
      → InFlightRound F × List (String × Envelope) × Option (String × List String)
  serial_run w r task [] = (r, [], none)
  serial_run w r task (id ∷ ids) =
      let (next, frame) = send_task w r id task in
      let waits = is_some frame && not (is_empty ids) in
      let (awaited, wait) = await_result next id in
      let onward = if waits then awaited else next in
      let (last, frames, left) = serial_run w onward task ids in
      if r.closed || w.stopping
      then (r, [], none)
      else if waits && blocks wait
      then (awaited, with_frame frame [], some (id, ids))
      else (last, with_frame frame frames, left)

module _ {F : Type 0} (fl : Float64 F) (marshal : Check → Option String)
    (encode : ProbeTaskPayload → Option String) where
  -- For a download monitor the value is a speed, in the unit of the threshold, and never inverted.
  unfoldable pub probe_spec : Monitor F → String → List String → ℕ → ℕ → RoundSpec F
  probe_spec m round_id ids plan_at deadline = record {
    round_id = round_id;
    monitor_id = m.id;
    agent_ids = ids;
    deadline = deadline;
    scheduled_at = plan_at;
    threshold = if is_download m.type then to_kbps fl m.threshold m.speed_unit else m.threshold;
    consecutive = m.consecutive;
    metric = if is_download m.type then RoundMetric.speed else RoundMetric.unset;
    serial_dispatch = is_download m.type;
    invert = if is_download m.type then false else m.invert_mode;
    probe_timeout = m.timeout * second;
  }

  unfoldable pub probe_row : Monitor F → String → List String → ℕ → ℕ → Round F
  probe_row m round_id ids plan_at deadline = record {
    id = round_id;
    monitor_id = m.id;
    assigned_agent_ids = ids;
    scheduled_at = plan_at;
    deadline = deadline;
    closed_at = 0;
    state = RowState.opened;
    success = 0;
    valid = 0;
    total_agents = length ids;
    success_rate = fl.of_int 0;
    latency_sum_ms = fl.of_int 0;
    latency_count = 0;
    speed_sum_kbps = fl.of_int 0;
    speed_count = 0;
    missing_alive = [];
    missing_dead = [];
    missing_undispatched = [];
    created_at = 0;
  }

  -- The row is stored and the round registered; the agents of a download monitor are served by
  -- `dispatchSerial`, all others at once.
  unfoldable pub open_round :
      World F → Scheduler F → Monitor F → ℕ → String → List String → Scheduler F
  open_round w s m plan_at check ids =
      let deadline = deadline_of s m ids w.now in
      let stored = record s {
        db = record (s.db) {
          rounds = insert_round s.db.rounds (probe_row m w.fresh_id ids plan_at deadline) w.now;
        };
      } in
      let payload = encode (record {
        round_id = w.fresh_id;
        monitor_id = m.id;
        monitor_name = m.name;
        monitor_type = m.type;
        check = check;
        deadline_unix = unix_sec deadline;
      }) in
      if w.round_insert_fails then s else elim payload [
        | none ↦ stored
        | some text ↦
            let task : Envelope = record { type = "probe_task"; payload = text } in
            let flight = set_task (new_round (probe_spec m w.fresh_id ids plan_at deadline)) task in
            let (sent, frames) =
              if is_download m.type then (flight, []) else send_all w flight task ids in
            record stored {
              rounds = insert w.fresh_id sent stored.rounds;
              sent = stored.sent ++ frames;
            }
      ]

  unfoldable pub create_round : World F → Scheduler F → Monitor F → ℕ → Scheduler F
  create_round w s m plan_at = elim (check_payload marshal m) [
    | none ↦ s
    | some check ↦ elim (assigned_agents m w.approved) [
      | none ↦ s
      | some ids ↦ open_round w s m plan_at check ids
    ]
  ]
