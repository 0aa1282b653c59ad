-- ===== src/Scheduler/Finalize/Missing.antt =====
-- `finalize` (dashboard/internal/scheduler/scheduler.go) of a round that some agents did not report to.
use uptime_mesh.Prelude.{
  ◌≡◌, refl, ◌∙◌, true, false, not, ◌&&◌, ◌||◌, count_if, count_if-ext, List, [], ◌∷◌, some, String,
  arith, eq_iff, keep, mem?, mem?-keep, keep_ext,
}
use uptime_mesh.Prelude.Float64.{Float64}
use uptime_mesh.Scheduler.Round.{Aggregation, aggregate}
use uptime_mesh.Scheduler.Round.Missing.{
  reported, is_dead, is_undispatched, is_silent, aggregate_groups,
}
use uptime_mesh.Scheduler.Round.Counts.{succeeded, counted, aggregate_counts}
use uptime_mesh.Scheduler.Flight.{InFlightRound, is_dispatched, pending_agents, close}
use uptime_mesh.Scheduler.World.{World}
use uptime_mesh.Scheduler.Finalize.{finds_dead, finds_undispatched, classify, closing}

module _ {F : Type 0} (w : World F) (r : InFlightRound F) where
  mem?-classify :
      (k : String) (ids : List String)
      → (mem? k (classify w r ids).0 ≡ mem? k ids && finds_dead w k)
        × (mem? k (classify w r ids).1 ≡ mem? k ids && finds_undispatched w r k)
  unfolding classify mem?
  mem?-classify k [] = (refl, refl)
  mem?-classify k (x ∷ xs) = ground (arith, eq_iff x k, mem?-classify k xs)

  abbrev pub dead : List String
  dead = (classify w r (pending_agents r)).0

  abbrev pub undispatched : List String
  undispatched = (classify w r (pending_agents r)).1

  -- What the two sets say of an assigned agent.
  pub groups_of :
      (k : String)
      → mem? k r.spec.agent_ids ≡ true
      → (is_dead r.results dead undispatched k ≡ not (reported r.results k) && finds_dead w k)
        × (is_undispatched r.results dead undispatched k
            ≡ not (reported r.results k) && (not (finds_dead w k) && not (is_dispatched r k)))
        × (is_silent r.results dead undispatched k
            ≡ not (reported r.results k) && (not (finds_dead w k) && is_dispatched r k))
  unfolding pending_agents finds_undispatched
  groups_of k m = ground (
    arith,
    mem?-classify k (pending_agents r),
    mem?-keep (λ id. not (reported r.results id)) k r.spec.agent_ids,
  )

  -- Who is in the denominator.
  counted_of :
      (k : String)
      → mem? k r.spec.agent_ids ≡ true
      → counted r.results dead undispatched k
        ≡ (reported r.results k || (not (finds_dead w k) && is_dispatched r k))
  counted_of k m = ground (arith, groups_of k m)

module _ {F : Type 0} (fl : Float64 F) (w : World F) (r : InFlightRound F) where
  pub closing_open :
      r.closed ≡ false
      → closing fl w r ≡ some (aggregate fl r.spec r.results (dead w r) (undispatched w r))
  unfolding closing close
  closing_open h = ground arith

  -- An open round is closed, and of the assigned agents with no sample: those whose id is no id or
  -- that answer no ping are recorded as dead; of the others, those that were never given the task
  -- as undispatched, and those that were given it, are alive and yet silent as such. The silent ones
  -- count as failures: the denominator is the number of the agents that reported or are silent, the
  -- numerator that of the agents that reported a success.
  pub closing_missing :
      r.closed ≡ false
      → (a : Aggregation F) × (closing fl w r ≡ some a)
        × (a.missing_dead
            ≡ keep (λ id. not (reported r.results id) && finds_dead w id) r.spec.agent_ids)
        × (a.missing_undispatched
            ≡ keep
                (λ id.
                  not (reported r.results id)
                  && (not (finds_dead w id) && not (is_dispatched r id)))
                r.spec.agent_ids)
        × (a.missing_alive
            ≡ keep
                (λ id. not (reported r.results id) && (not (finds_dead w id) && is_dispatched r id))
                r.spec.agent_ids)
        × (a.valid
            ≡ count_if
                (λ id. reported r.results id || (not (finds_dead w id) && is_dispatched r id))
                r.spec.agent_ids)
        × (a.success ≡ count_if (succeeded r.spec r.results) r.spec.agent_ids)
  closing_missing h =
      let (v, n, _, _, _, _) = aggregate_counts fl r.spec r.results (dead w r) (undispatched w r) in
      let (d, u, s, _) = aggregate_groups fl r.spec r.results (dead w r) (undispatched w r) in
      (
        aggregate fl r.spec r.results (dead w r) (undispatched w r),
        closing_open h,
        d ∙ keep_ext _ _ r.spec.agent_ids (λ k m. (groups_of w r k m).0),
        u ∙ keep_ext _ _ r.spec.agent_ids (λ k m. (groups_of w r k m).1),
        s ∙ keep_ext _ _ r.spec.agent_ids (λ k m. (groups_of w r k m).2),
        v ∙ count_if-ext _ _ r.spec.agent_ids (λ k m. counted_of w r k m),
        n,
      )
