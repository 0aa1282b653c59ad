-- ===== src/Scheduler/Round/Counts.antt =====
-- The counters and the state that `aggregate` (dashboard/internal/scheduler/round.go) computes.
use uptime_mesh.Prelude.{
  ℕ, ◌+◌, ◌≤◌, ◌≡◌, Bool, false, ◌||◌, List, [], ◌∷◌, String, Option, none, some, arith, ◌==◌,
  if◌then◌else◌, length, count_if, length-keep, lookup,
}
use uptime_mesh.Prelude.Float64.{Float64}
use uptime_mesh.Scheduler.Round.{
  RoundSpec, RoundState, Sample, Aggregation, Results, is_speed, eff_ok, empty_aggregation,
  add_agent, add_agents, aggregate,
}
use uptime_mesh.Scheduler.Round.Missing.{
  reported, is_dead, is_undispatched, is_silent, aggregate_groups,
}

abbrev sample_ok : {F : Type 0} → RoundSpec F → Option (Sample F) → Bool
sample_ok spec none = false
sample_ok spec (some s) = eff_ok spec s.ok

-- The agent's sample has come in, and its verdict, inverted if the monitor is, is a success.
abbrev pub succeeded : {F : Type 0} → RoundSpec F → Results F → String → Bool
succeeded spec results id = sample_ok spec (lookup id results)

-- The agent is in the denominator: it reported, or was given the task, is alive and did not.
abbrev pub counted : {F : Type 0} → Results F → List String → List String → String → Bool
counted results dead undispatched id = reported results id || is_silent results dead undispatched id

abbrev bit : Bool → ℕ
bit b = if b then 1 else 0

module _ {F : Type 0} (fl : Float64 F) (spec : RoundSpec F) (results : Results F)
    (dead undispatched : List String) where
  abbrev Counts : Aggregation F → ℕ → ℕ → ℕ → Aggregation F → Type 0
  Counts agg c s r t =
      (t.valid ≡ agg.valid + c)
      × (t.success ≡ agg.success + s)
      × (t.latency_count ≡ agg.latency_count + r)
      × (t.speed_count ≡ agg.speed_count + (if is_speed spec.metric then c else 0))
      × (t.total_agents ≡ agg.total_agents)

  add_agent-Counts :
      (agg : Aggregation F) (id : String)
      → Counts agg
          (bit (counted results dead undispatched id))
          (bit (succeeded spec results id))
          (bit (reported results id))
          (add_agent fl spec results dead undispatched agg id)
  unfolding add_agent
  add_agent-Counts agg id = ground arith

  add_agents-Counts :
      (agg : Aggregation F) (ids : List String)
      → Counts agg
          (count_if (counted results dead undispatched) ids)
          (count_if (succeeded spec results) ids)
          (count_if (reported results) ids)
          (add_agents fl spec results dead undispatched agg ids)
  unfolding add_agents
  add_agents-Counts agg [] = ground arith
  add_agents-Counts agg (id ∷ ids) = ground (
    arith,
    add_agent-Counts agg id,
    add_agents-Counts (add_agent fl spec results dead undispatched agg id) ids,
  )

  -- The denominator counts the assigned agents that reported or stayed silent with the task in
  -- hand, the numerator those whose verdict is a success, the latency count those that reported;
  -- the speed count is the denominator for a download monitor and 0 for any other. The round is
  -- UNKNOWN exactly if the denominator is 0, and CLOSED otherwise.
  pub aggregate_counts :
      let t = aggregate fl spec results dead undispatched in
      (t.valid ≡ count_if (counted results dead undispatched) spec.agent_ids)
      × (t.success ≡ count_if (succeeded spec results) spec.agent_ids)
      × (t.latency_count ≡ count_if (reported results) spec.agent_ids)
      × (t.speed_count ≡ (if is_speed spec.metric then t.valid else 0))
      × (t.total_agents ≡ length spec.agent_ids)
      × (t.state ≡ some (if t.valid == 0 then RoundState.unknown else RoundState.closed))
  unfolding aggregate
  aggregate_counts =
      let c = add_agents-Counts (empty_aggregation fl spec) spec.agent_ids in ground arith

  success-le :
      (ids : List String)
      → count_if (succeeded spec results) ids ≤ count_if (counted results dead undispatched) ids
  success-le [] = omega arith
  success-le (id ∷ ids) = ground (arith, success-le ids)

  counted_total :
      (ids : List String)
      → count_if (counted results dead undispatched) ids
          + count_if (is_dead results dead undispatched) ids
          + count_if (is_undispatched results dead undispatched) ids
        ≡ length ids
  counted_total [] = omega arith
  counted_total (id ∷ ids) = ground (arith, counted_total ids)

  -- The numerator is at most the denominator, and the agents that are not in the denominator are
  -- exactly those listed as dead or as never dispatched.
  pub aggregate_bounds :
      let t = aggregate fl spec results dead undispatched in
      (t.success ≤ t.valid)
      × (t.valid + length t.missing_dead + length t.missing_undispatched ≡ t.total_agents)
  aggregate_bounds =
      let (d, u, _, _) = aggregate_groups fl spec results dead undispatched in
      let (v, s, _, _, n, _) = aggregate_counts in
      rw (v, s, n, d, u)
        (success-le spec.agent_ids, simp length-keep (counted_total spec.agent_ids))
