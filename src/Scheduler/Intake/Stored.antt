-- ===== src/Scheduler/Intake/Stored.antt =====
-- The row that `handleResult` (dashboard/internal/scheduler/scheduler.go) stores of a result.
use uptime_mesh.Prelude.{
  ℕ, ◌≡◌, Bool, false, not, List, Option, none, some, String, arith, lookup, insert, if◌then◌else◌,
  Option-cases, inl, inr,
}
use uptime_mesh.Prelude.Float64.{Float64}
use uptime_mesh.Store.Id.{id_from_hex}
use uptime_mesh.Store.Rounds.{CheckResult, insert_result}
use uptime_mesh.Scheduler.Round.{Sample, eff_ok}
use uptime_mesh.Scheduler.Flight.{InFlightRound, add_result}
use uptime_mesh.Scheduler.World.{Scheduler, World}
use uptime_mesh.Scheduler.Finalize.Results.{finalize-results}
use uptime_mesh.Scheduler.Intake.{
  ProbeResultPayload, row_of, sample_of, store_row, intake_late, intake_on_time, intake,
  handle_result,
}

-- What a result is judged by: the round under its id, if there is one.
abbrev pub judged : {F : Type 0} → Option (InFlightRound F) → Bool → Bool
judged none ok = ok
judged (some r) ok = if r.spec.invert then not ok else ok

abbrev pub planned : {F : Type 0} → Option (InFlightRound F) → ℕ
planned none = 0
planned (some r) = r.spec.scheduled_at

-- Whether a round takes results.
abbrev pub takes : {F : Type 0} → Option (InFlightRound F) → Bool
takes none = false
takes (some r) = not r.closed

-- The row of a result that came in for a round.
abbrev pub result_row :
    {F : Type 0}
    → String
    → String
    → String
    → ProbeResultPayload F
    → Option (InFlightRound F)
    → CheckResult F
result_row round_id monitor_id agent_id p round = record {
  round_id = round_id;
  monitor_id = monitor_id;
  agent_id = agent_id;
  ok = judged round p.ok;
  latency_ms = p.latency_ms;
  http_status = p.http_status;
  error = p.error;
  speed_kbps = p.speed_kbps;
  late = not (takes round);
  scheduled_at = planned round;
  created_at = 0;
}

add_result-takes :
    {F : Type 0} (r : InFlightRound F) (agent_id : String) (m : Sample F)
    → (add_result r agent_id m).1 ≡ not r.closed
unfolding add_result
add_result-takes r agent_id m = ground arith

module _ {F : Type 0} (fl : Float64 F) (w : World F) where
  -- The table after a row, if the statement does not fail.
  abbrev pub stored : List (CheckResult F) → CheckResult F → List (CheckResult F)
  stored rows row = if w.result_insert_fails then rows else insert_result rows row w.now

  intake_on_time-results :
      (s : Scheduler F) (round_id : String) (r : InFlightRound F) (row : CheckResult F)
      → (intake_on_time fl w s round_id r row).db.results ≡ stored s.db.results row
  unfolding intake_on_time store_row
  intake_on_time-results s round_id r row =
      let kept = record s { rounds = insert round_id r s.rounds } in
      ground (arith, finalize-results fl w (store_row fl w kept row) r)

  intake-results :
      (s : Scheduler F) (round_id monitor_id agent_id : String) (p : ProbeResultPayload F)
      → (intake fl w s round_id monitor_id agent_id p).db.results
        ≡ stored s.db.results (result_row round_id monitor_id agent_id p (lookup round_id s.rounds))
  unfolding intake intake_late store_row row_of eff_ok
  intake-results s round_id monitor_id agent_id p = elim (Option-cases (lookup round_id s.rounds)) [
    | inl n ↦ ground (arith, n)
    | inr (r, n) ↦
        let row = row_of fl round_id monitor_id agent_id p (some r) in
        let (next, taken) = add_result r agent_id (sample_of fl p) in
        ground (
          arith,
          n,
          add_result-takes r agent_id (sample_of fl p),
          intake_on_time-results s round_id next row,
        )
  ]

  -- Whatever comes in and whatever the round is in: a result one of whose ids is none leaves the
  -- table of the results; of any other, a row is stored unless the statement fails, also where the
  -- agent has reported to that round before. It carries the ids and what was measured. It is late
  -- exactly if its round is not an open one, and its verdict is inverted exactly if the round, where
  -- it is still known, inverts. Neither the closing of the round nor the alert touches the table.
  pub handle_result-results :
      (s : Scheduler F) (agent_id : String) (p : ProbeResultPayload F)
      → (handle_result fl w s agent_id p).db.results ≡ elim (id_from_hex p.round_id) [
        | none ↦ s.db.results
        | some round_id ↦ elim (id_from_hex p.monitor_id) [
          | none ↦ s.db.results
          | some monitor_id ↦
              stored s.db.results
                (result_row round_id monitor_id agent_id p (lookup round_id s.rounds))
        ]
      ]
  unfolding handle_result
  handle_result-results s agent_id p = elim (Option-cases (id_from_hex p.round_id)) [
    | inl n ↦ ground (arith, n)
    | inr (round_id, n) ↦ elim (Option-cases (id_from_hex p.monitor_id)) [
      | inl m ↦ ground (arith, n, m)
      | inr (monitor_id, m) ↦ ground (arith, n, m, intake-results s round_id monitor_id agent_id p)
    ]
  ]
