-- ===== src/Scheduler/Round/Rate.antt =====
-- The rate and the value that `aggregate` (dashboard/internal/scheduler/round.go) computes.
use uptime_mesh.Prelude.{ℕ, ◌^◌, ◌<◌, ◌≡◌, ◌∙◌, false, List, String, arith}
use uptime_mesh.Prelude.Float64.{Float64, Lawful}
use uptime_mesh.Scheduler.Round.{
  RoundSpec, Aggregation, Results, is_speed, rate, settle, aggregate, add_agents, empty_aggregation,
}

module _ {F : Type 0} (fl : Float64 F) (spec : RoundSpec F) where
  -- What `settle` leaves, in terms of its own result.
  abbrev Judged : Aggregation F → Type 0
  Judged t =
      ((0 < t.valid) → t.success_rate ≡ rate fl t.success t.valid)
      × ((0 < t.valid) → is_speed spec.metric ≡ false → t.metric_value ≡ t.success_rate)

  settle-Judged : (agg : Aggregation F) → Judged (settle fl spec agg)
  unfolding settle
  settle-Judged agg = (ground arith, ground arith)

  rate_full : (n : ℕ) → Lawful fl → 0 < n → n < 2 ^ 53 → rate fl n n ≡ fl.of_int 100
  unfolding rate
  rate_full n law h b = rw (law.div_self n h b, rate) (law.mul_int 1 100 (omega arith))

  rate_none : (n : ℕ) → Lawful fl → 0 < n → n < 2 ^ 53 → rate fl 0 n ≡ fl.of_int 0
  unfolding rate
  rate_none n law h b = rw (law.div_zero n h b, rate) (law.mul_int 0 100 (omega arith))

  -- The rate at its two ends, and what a round is judged by.
  pub aggregate_rate :
      (results : Results F) (dead undispatched : List String)
      → let t = aggregate fl spec results dead undispatched in
        Lawful fl
        → 0 < t.valid
        → t.valid < 2 ^ 53
        → (t.success ≡ t.valid → t.success_rate ≡ fl.of_int 100)
          × (t.success ≡ 0 → t.success_rate ≡ fl.of_int 0)
          × (is_speed spec.metric ≡ false → t.metric_value ≡ t.success_rate)
  unfolding aggregate
  aggregate_rate results dead undispatched law h b =
      let t = aggregate fl spec results dead undispatched in
      let (r, m) =
        settle-Judged (
          add_agents fl spec results dead undispatched (empty_aggregation fl spec)
            spec.agent_ids) in
      let full = rate_full t.valid law h b in
      let empty = rate_none t.valid law h b in (λ e. r h ∙ rw e full, λ e. r h ∙ rw e empty, m h)

  -- If doubles are exact on small whole numbers: a round of a monitor that measures no speed, with
  -- a denominator of one to 2^53 - 1 and every counted agent a success, has the rate 100 and is
  -- judged by it.
  pub aggregate_full :
      (results : Results F) (dead undispatched : List String)
      → let t = aggregate fl spec results dead undispatched in
        Lawful fl
        → is_speed spec.metric ≡ false
        → 0 < t.valid
        → t.valid < 2 ^ 53
        → t.success ≡ t.valid
        → (t.success_rate ≡ fl.of_int 100) × (t.metric_value ≡ fl.of_int 100)
  aggregate_full results dead undispatched law sp h b e =
      let (full, _, m) = aggregate_rate results dead undispatched law h b in (full e, m sp ∙ full e)

  -- If doubles are exact on small whole numbers: a round of a monitor that measures no speed, with
  -- a denominator of one to 2^53 - 1 and no counted agent a success, has the rate 0 and is judged
  -- by it.
  pub aggregate_failed :
      (results : Results F) (dead undispatched : List String)
      → let t = aggregate fl spec results dead undispatched in
        Lawful fl
        → is_speed spec.metric ≡ false
        → 0 < t.valid
        → t.valid < 2 ^ 53
        → t.success ≡ 0
        → (t.success_rate ≡ fl.of_int 0) × (t.metric_value ≡ fl.of_int 0)
  aggregate_failed results dead undispatched law sp h b e =
      let (_, empty, m) = aggregate_rate results dead undispatched law h b in
      (empty e, m sp ∙ empty e)
