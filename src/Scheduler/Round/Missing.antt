-- ===== src/Scheduler/Round/Missing.antt =====
-- Where `aggregate` (dashboard/internal/scheduler/round.go) puts each assigned agent.
use mathlib.Core.List.{append_assoc, append-nil, map-append}
use uptime_mesh.Prelude.{
  ◌≡◌, sym, ◌∙◌, Bool, not, ◌&&◌, List, [], ◌∷◌, ◌++◌, String, arith, map, if◌then◌else◌, keep,
  Option-cases, inl, inr, is_some, lookup, mem?,
}
use uptime_mesh.Prelude.Float64.{Float64}
use uptime_mesh.Scheduler.Round.{
  RoundSpec, Sample, AgentSample, empty_aggregation, add_sample, Aggregation, Results, add_agent,
  add_agents, aggregate,
}

module _ {F : Type 0} (results : Results F) where
  -- The agent's sample has come in.
  abbrev pub reported : String → Bool
  reported id = is_some (lookup id results)

module _ {F : Type 0} (results : Results F) (dead undispatched : List String) where
  abbrev pub is_dead : String → Bool
  is_dead id = not (reported results id) && mem? id dead

  abbrev pub is_undispatched : String → Bool
  is_undispatched id = not (reported results id) && (not (mem? id dead) && mem? id undispatched)

  abbrev pub is_silent : String → Bool
  is_silent id = not (reported results id) && (not (mem? id dead) && not (mem? id undispatched))

abbrev one : Bool → String → List String
one b id = if b then id ∷ [] else []

abbrev pub sample_ids : {F : Type 0} → List (AgentSample F) → List String
sample_ids = map (λ s. s.agent_id)

-- One more element of a filtered list, moved to what is already there.
keep_step :
    (p : String → Bool) (xs ys : List String) (id : String) (ids : List String)
    → ys ≡ xs ++ one (p id) id
    → ys ++ keep p ids ≡ xs ++ keep p (id ∷ ids)
keep_step p xs ys id ids e = ground (arith, append_assoc xs (id ∷ []) (keep p ids), append-nil xs)

module _ {F : Type 0} (fl : Float64 F) (spec : RoundSpec F) (results : Results F)
    (dead undispatched : List String) where
  sample_ids-add :
      (agg : Aggregation F) (id : String) (s : Sample F)
      → sample_ids (add_sample fl spec agg id s).samples ≡ sample_ids agg.samples ++ id ∷ []
  unfolding add_sample
  sample_ids-add agg id s = map-append _ agg.samples _

  add_agent-groups :
      (agg : Aggregation F) (id : String)
      → let t = add_agent fl spec results dead undispatched agg id in
        (t.missing_dead ≡ agg.missing_dead ++ one (is_dead results dead undispatched id) id)
        × (t.missing_undispatched
            ≡ agg.missing_undispatched ++ one (is_undispatched results dead undispatched id) id)
        × (t.missing_alive ≡ agg.missing_alive ++ one (is_silent results dead undispatched id) id)
        × (sample_ids t.samples ≡ sample_ids agg.samples ++ one (reported results id) id)
  unfolding add_agent
  add_agent-groups agg id =
      let d = append-nil agg.missing_dead in
      let u = append-nil agg.missing_undispatched in
      let a = append-nil agg.missing_alive in
      elim (Option-cases (lookup id results)) [
        | inl e ↦ ground (arith, append-nil (sample_ids agg.samples))
        | inr (s, e) ↦ ground (arith, sample_ids-add agg id s)
      ]

  -- The four groups of agents, in the order of `ids`.
  abbrev pub Groups : Aggregation F → List String → Aggregation F → Type 0
  Groups agg ids t =
      (t.missing_dead ≡ agg.missing_dead ++ keep (is_dead results dead undispatched) ids)
      × (t.missing_undispatched
          ≡ agg.missing_undispatched ++ keep (is_undispatched results dead undispatched) ids)
      × (t.missing_alive ≡ agg.missing_alive ++ keep (is_silent results dead undispatched) ids)
      × (sample_ids t.samples ≡ sample_ids agg.samples ++ keep (reported results) ids)

  add_agents-Groups :
      (agg : Aggregation F) (ids : List String)
      → Groups agg ids (add_agents fl spec results dead undispatched agg ids)
  unfolding add_agents
  add_agents-Groups agg [] =
      (sym (append-nil _), sym (append-nil _), sym (append-nil _), sym (append-nil _))
  add_agents-Groups agg (id ∷ ids) =
      let (d, u, a, r) = add_agent-groups agg id in
      let (ds, us, as', rs) =
        add_agents-Groups (add_agent fl spec results dead undispatched agg id) ids in
      (
        ds ∙ keep_step (is_dead results dead undispatched) _ _ id ids d,
        us ∙ keep_step (is_undispatched results dead undispatched) _ _ id ids u,
        as' ∙ keep_step (is_silent results dead undispatched) _ _ id ids a,
        rs ∙ keep_step (reported results) _ _ id ids r,
      )

  -- In the order of the assignment: an agent whose sample came in stands in `samples`; of the
  -- others one that answered no ping stands in `missing_dead`, one that answered but was never
  -- given the task in `missing_undispatched`, and any other in `missing_alive`.
  pub aggregate_groups :
      let t = aggregate fl spec results dead undispatched in
      (t.missing_dead ≡ keep (is_dead results dead undispatched) spec.agent_ids)
      × (t.missing_undispatched ≡ keep (is_undispatched results dead undispatched) spec.agent_ids)
      × (t.missing_alive ≡ keep (is_silent results dead undispatched) spec.agent_ids)
      × (sample_ids t.samples ≡ keep (reported results) spec.agent_ids)
  unfolding aggregate
  aggregate_groups =
      let (d, u, a, r) = add_agents-Groups (empty_aggregation fl spec) spec.agent_ids in
      ground arith
