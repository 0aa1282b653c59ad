-- ===== src/Scheduler/Finalize/Results.antt =====
-- `finalize` (dashboard/internal/scheduler/scheduler.go) and the table of the results.
use uptime_mesh.Prelude.{◌≡◌, ◌∙◌, String, arith, Option-cases, inl, inr}
use uptime_mesh.Prelude.Float64.{Float64}
use uptime_mesh.Store.Id.{id_from_hex}
use uptime_mesh.Store.Rounds.{close_round}
use uptime_mesh.Store.States.{MonitorState, get_monitor_state}
use uptime_mesh.Scheduler.Round.{RoundSpec, Aggregation}
use uptime_mesh.Scheduler.Flight.{InFlightRound}
use uptime_mesh.Scheduler.World.{Scheduler, World}
use uptime_mesh.Scheduler.Monitor.{Monitor}
use uptime_mesh.Scheduler.Finalize.{
  must_id, apply_alert, advance_alert, count_hour, first_closing, close_of, taken_out, settle,
  closing, finalize,
}

module _ {F : Type 0} (fl : Float64 F) (w : World F) where
  advance_alert-results :
      (s : Scheduler F) (spec : RoundSpec F) (agg : Aggregation F) (m : Monitor F)
      (cur : MonitorState F)
      → (advance_alert fl w s spec agg m cur).db.results ≡ s.db.results
  unfolding advance_alert
  advance_alert-results s spec agg m cur = ground arith

  apply_alert-results :
      (s : Scheduler F) (spec : RoundSpec F) (agg : Aggregation F)
      → (apply_alert fl w s spec agg).db.results ≡ s.db.results
  unfolding apply_alert
  apply_alert-results s spec agg = elim (Option-cases (w.find_monitor (must_id spec.monitor_id))) [
    | inl e ↦ ground arith
    | inr (m, e) ↦
        ground (arith, advance_alert-results s spec agg m (get_monitor_state fl s.db.states m.id).0)
  ]

  count_hour-results :
      (s : Scheduler F) (spec : RoundSpec F) (agg : Aggregation F)
      → (count_hour fl w s spec agg).db.results ≡ s.db.results
  unfolding count_hour
  count_hour-results s spec agg = ground arith

  first_closing-results :
      (s : Scheduler F) (spec : RoundSpec F) (agg : Aggregation F)
      → (first_closing fl w s spec agg).db.results ≡ s.db.results
  unfolding first_closing
  first_closing-results s spec agg =
      apply_alert-results (count_hour fl w s spec agg) spec agg ∙ count_hour-results s spec agg

  settle-results :
      (s : Scheduler F) (oid : String) (spec : RoundSpec F) (agg : Aggregation F)
      → (settle fl w s oid spec agg).db.results ≡ s.db.results
  unfolding settle
  settle-results s oid spec agg = ground (
    arith,
    first_closing-results
        (taken_out fl s oid (close_round s.db.rounds oid (close_of fl agg) w.now).0) spec agg,
  )

  pub finalize-results :
      (s : Scheduler F) (r : InFlightRound F) → (finalize fl w s r).db.results ≡ s.db.results
  unfolding finalize
  finalize-results s r = elim (Option-cases (id_from_hex r.spec.round_id)) [
    | inl n ↦ ground (arith, n)
    | inr (oid, n) ↦ elim (Option-cases (closing fl w r)) [
      | inl m ↦ ground (arith, n, m)
      | inr (agg, m) ↦ ground (arith, n, m, settle-results s oid r.spec agg)
    ]
  ]
