-- ===== src/Scheduler/Round/Arrival.antt =====
-- `aggregate` (dashboard/internal/scheduler/round.go) and the order of the samples.
use uptime_mesh.Prelude.{◌≡◌, refl, List, [], ◌∷◌, String, lookup}
use uptime_mesh.Prelude.Float64.{Float64}
use uptime_mesh.Scheduler.Round.{
  RoundSpec, Aggregation, Results, add_agent, add_agents, empty_aggregation, aggregate,
}

module _ {F : Type 0} (fl : Float64 F) (spec : RoundSpec F) (dead undispatched : List String) where
  add_agent-lookup :
      (r s : Results F) (agg : Aggregation F) (id : String)
      → lookup id r ≡ lookup id s
      → add_agent fl spec r dead undispatched agg id ≡ add_agent fl spec s dead undispatched agg id
  unfolding add_agent
  add_agent-lookup r s agg id h = rw (h, add_agent)

  add_agents-lookup :
      (r s : Results F) (agg : Aggregation F) (ids : List String)
      → ((id : String) → lookup id r ≡ lookup id s)
      → add_agents fl spec r dead undispatched agg ids
        ≡ add_agents fl spec s dead undispatched agg ids
  unfolding add_agents
  add_agents-lookup r s agg [] h = refl
  add_agents-lookup r s agg (id ∷ ids) h =
      rw (add_agent-lookup r s agg id (h id))
        (add_agents-lookup r s (add_agent fl spec s dead undispatched agg id) ids h)

  pub aggregate-lookup :
      (r s : Results F)
      → ((id : String) → lookup id r ≡ lookup id s)
      → aggregate fl spec r dead undispatched ≡ aggregate fl spec s dead undispatched
  unfolding aggregate
  aggregate-lookup r s h = rw (add_agents-lookup r s (empty_aggregation fl spec) spec.agent_ids h)
