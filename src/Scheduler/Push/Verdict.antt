-- ===== src/Scheduler/Push/Verdict.antt =====
-- What a reported result makes of its round, and of the alert.
use uptime_mesh.Prelude.{
  ℕ, ◌≡◌, refl, ◌∙◌, sym, ap, Bool, true, false, not, [], ◌∷◌, some, String, arith, if◌then◌else◌,
  lookup, insert, Bool-cases, inl, inr,
}
use uptime_mesh.Prelude.Float64.{Float64, Lawful}
use uptime_mesh.Alert.{breached}
use uptime_mesh.Scheduler.Round.{RoundState, Aggregation, is_speed, aggregate, eff_ok}
use uptime_mesh.Scheduler.Round.Missing.{reported}
use uptime_mesh.Scheduler.Round.Counts.{aggregate_counts, succeeded}
use uptime_mesh.Scheduler.Round.Rate.{aggregate_rate}
use uptime_mesh.Scheduler.Flight.{InFlightRound, new_round, mark_dispatched, add_result}
use uptime_mesh.Scheduler.Monitor.{Monitor}
use uptime_mesh.Scheduler.World.{World}
use uptime_mesh.Scheduler.Finalize.{closing}
use uptime_mesh.Scheduler.Finalize.Missing.{closing_open, dead, undispatched}
use uptime_mesh.Scheduler.Push.{push_agent_id, push_flight, push_spec, push_threshold}

-- The verdict that a report stands for.
abbrev pub verdict : Bool → Bool → Bool
verdict ok invert = if invert then not ok else ok

module _ {F : Type 0} (fl : Float64 F) (w : World F) (round_id : String) (m : Monitor F) (ok : Bool)
    (latency_ms : F) (at : ℕ) (note : String) (invert : Bool) where
  abbrev report : InFlightRound F
  report = (push_flight fl round_id m ok latency_ms at note invert).0

  push_flight-report :
      (report.closed ≡ false)
      × (report.spec ≡ push_spec fl round_id m at invert)
      × (reported report.results push_agent_id ≡ true)
      × (succeeded report.spec report.results push_agent_id ≡ verdict ok invert)
  unfolding push_flight push_spec new_round mark_dispatched add_result eff_ok lookup insert
  push_flight-report = (refl, refl, refl, refl)

  abbrev reported_round : Aggregation F
  reported_round = aggregate fl report.spec report.results (dead w report) (undispatched w report)

  push_flight-counts :
      (reported_round.valid ≡ 1)
      × (reported_round.success ≡ (if verdict ok invert then 1 else 0))
      × (reported_round.state ≡ some RoundState.closed)
  unfolding push_spec
  push_flight-counts =
      let (_, e, r, s) = push_flight-report in
      let (v, n, _, _, _, c) =
        aggregate_counts fl report.spec report.results (dead w report) (undispatched w report) in
      let ids : report.spec.agent_ids ≡ push_agent_id ∷ [] = ap (λ t. t.agent_ids) e in
      ground (arith, ids, r, s, v, n, c)

  push_flight-value :
      Lawful fl → reported_round.metric_value ≡ fl.of_int (if verdict ok invert then 100 else 0)
  unfolding push_spec
  push_flight-value law =
      let (_, e, _, _) = push_flight-report in
      let (v, n, _) = push_flight-counts in
      let (full, empty, rate) =
        aggregate_rate fl report.spec report.results (dead w report) (undispatched w report) law
          (omega arith) (omega arith) in
      let m = rate (ap (λ t. is_speed t.metric) e) in
      elim (Bool-cases (verdict ok invert)) [
        | inl h ↦ rw (m, h) (full (rw h at n ∙ sym v))
        | inr h ↦ rw (m, h) (empty (rw h at n))
      ]

  below_threshold :
      Lawful fl → (b : Bool) → fl.lt (fl.of_int (if b then 100 else 0)) (push_threshold fl) ≡ not b
  below_threshold law true = law.lt_int 100 100 (omega arith) (omega arith)
  below_threshold law false = law.lt_int 0 100 (omega arith) (omega arith)

  -- A pushed report closes its round with a denominator of one; the value is 100 if the report,
  -- inverted where the monitor is, is a success and 0 if not, and the round counts as below the
  -- threshold exactly in the second case. Doubles are assumed exact on small whole numbers.
  pub push_verdict :
      Lawful fl
      → (a : Aggregation F) × (closing fl w report ≡ some a)
        × (a.valid ≡ 1)
        × (a.state ≡ some RoundState.closed)
        × (a.metric_value ≡ fl.of_int (if verdict ok invert then 100 else 0))
        × (breached fl
              (record { valid = true; value = a.metric_value; success_rate = a.success_rate })
              (push_threshold fl)
            ≡ not (verdict ok invert))
  unfolding breached
  push_verdict law =
      let (v, _, c) = push_flight-counts in
      let value = push_flight-value law in
      (
        reported_round,
        closing_open fl w report (push_flight-report.0),
        v,
        c,
        value,
        ap (λ x. fl.lt x (push_threshold fl)) value ∙ below_threshold law (verdict ok invert),
      )
