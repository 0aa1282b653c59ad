-- ===== src/Scheduler/Intake.antt =====
-- `handleResult` of dashboard/internal/scheduler/scheduler.go: an agent's result comes in. The
-- handler is one step here, `finalize` included.
pub mod Late
pub mod Stored
use uptime_mesh.Prelude.{
  ℕ, Bool, true, false, List, [], ◌∷◌, Option, none, some, String, if◌then◌else◌, lookup, insert,
}
use uptime_mesh.Prelude.Float64.{Float64}
use uptime_mesh.Store.Id.{id_from_hex}
use uptime_mesh.Store.Rounds.{CheckResult, insert_result}
use uptime_mesh.Scheduler.Round.{Sample, eff_ok}
use uptime_mesh.Scheduler.Flight.{InFlightRound, add_result, pending_agents}
use uptime_mesh.Scheduler.World.{Scheduler, World}
use uptime_mesh.Scheduler.Finalize.{finalize}

-- shared/protocol/protocol.go
pub record ProbeResultPayload (F : Type 0) : Type 0 where
  pub round_id : String
  pub monitor_id : String
  pub ok : Bool
  pub latency_ms : F
  pub http_status : ℕ
  pub error : String
  pub speed_kbps : F

module _ {F : Type 0} (fl : Float64 F) where
  -- The row of a result, before it is known whether it is late.
  unfoldable pub row_of :
      String → String → String → ProbeResultPayload F → Option (InFlightRound F) → CheckResult F
  row_of round_id monitor_id agent_id p flight = record {
    round_id = round_id;
    monitor_id = monitor_id;
    agent_id = agent_id;
    ok = elim flight [ none ↦ p.ok | some r ↦ eff_ok r.spec p.ok ];
    latency_ms = p.latency_ms;
    http_status = p.http_status;
    error = p.error;
    speed_kbps = p.speed_kbps;
    late = false;
    scheduled_at = elim flight [ none ↦ 0 | some r ↦ r.spec.scheduled_at ];
    created_at = 0;
  }

  unfoldable pub store_row : World F → Scheduler F → CheckResult F → Scheduler F
  store_row w s row =
      if w.result_insert_fails
      then s
      else record s { db = record (s.db) { results = insert_result s.db.results row w.now } }

  unfoldable pub intake_late : World F → Scheduler F → CheckResult F → Scheduler F
  unfolding store_row
  intake_late w s row = store_row w s (record row { late = true })

  -- The round has taken the result: the row is stored, and the round closed if it is complete.
  unfoldable pub intake_on_time :
      World F → Scheduler F → String → InFlightRound F → CheckResult F → Scheduler F
  unfolding store_row
  intake_on_time w s round_id r row =
      let kept = record s { rounds = insert round_id r s.rounds } in
      if w.result_insert_fails then kept else elim (pending_agents r) [
        | [] ↦ finalize fl w (store_row w kept row) r
        | _ ∷ _ ↦ store_row w kept row
      ]

  abbrev pub sample_of : ProbeResultPayload F → Sample F
  sample_of p = record {
    ok = p.ok;
    latency_ms = p.latency_ms;
    speed_kbps = p.speed_kbps;
    err_text = p.error;
  }

  -- Both ids of the payload are valid.
  unfoldable pub intake :
      World F → Scheduler F → String → String → String → ProbeResultPayload F → Scheduler F
  unfolding row_of intake_late
  intake w s round_id monitor_id agent_id p = elim (lookup round_id s.rounds) [
    | none ↦ intake_late w s (row_of round_id monitor_id agent_id p none)
    | some r ↦
        let (r', taken) = add_result r agent_id (sample_of p) in
        let row = row_of round_id monitor_id agent_id p (some r) in
        if taken then intake_on_time w s round_id r' row else intake_late w s row
  ]

  unfoldable pub handle_result : World F → Scheduler F → String → ProbeResultPayload F → Scheduler F
  handle_result w s agent_id p = elim (id_from_hex p.round_id) [
    | none ↦ s
    | some round_id ↦ elim (id_from_hex p.monitor_id) [
      | none ↦ s
      | some monitor_id ↦ intake w s round_id monitor_id agent_id p
    ]
  ]
