-- ===== src/Scheduler/Flight/Samples.antt =====
-- The samples of a round (dashboard/internal/scheduler/round.go) and its closing.
use uptime_mesh.Prelude.{
  ◌≡◌, refl, ◌≢◌, false, not, List, [], ◌∷◌, some, String, arith, if◌then◌else◌, keep, is_some,
  lookup, str_eq, eq_iff, lookup-insert, ap, sym, ◌∙◌, true, Bool-cases, inl, inr,
}
use uptime_mesh.Prelude.Float64.{Float64}
use uptime_mesh.Scheduler.Round.{
  RoundSpec, Sample, Aggregation, Results, add_agent, add_agents, aggregate, empty_aggregation,
}
use uptime_mesh.Scheduler.Round.Arrival.{aggregate-lookup}
use uptime_mesh.Scheduler.Flight.{InFlightRound, add_result, pending_agents, close}

module _ {F : Type 0} where
  -- The sample that came first is the one that is kept.
  lookup-add_result :
      (r : InFlightRound F) (id j : String) (s : Sample F)
      → r.closed ≡ false
      → lookup j (add_result r id s).0.results ≡ (
          if str_eq id j
          then (if is_some (lookup id r.results) then lookup id r.results else some s)
          else lookup j r.results)
  unfolding add_result
  lookup-add_result r id j s h = ground (arith, lookup-insert id j s r.results, eq_iff id j)

  add_result-frame :
      (r : InFlightRound F) (id : String) (s : Sample F)
      → r.closed ≡ false
      → ((add_result r id s).0.closed ≡ false) × ((add_result r id s).0.spec ≡ r.spec)
  unfolding add_result
  add_result-frame r id s h = ground arith

  lookup-add_result_twice :
      (r : InFlightRound F) (a b j : String) (s t : Sample F)
      → r.closed ≡ false
      → a ≢ b
      → lookup j (add_result (add_result r a s).0 b t).0.results
        ≡ lookup j (add_result (add_result r b t).0 a s).0.results
  lookup-add_result_twice r a b j s t h n = ground (
    arith,
    add_result-frame r a s h,
    add_result-frame r b t h,
    lookup-add_result r a j s h,
    lookup-add_result r b j t h,
    lookup-add_result r a b s h,
    lookup-add_result r b a t h,
    lookup-add_result (add_result r a s).0 b j t,
    lookup-add_result (add_result r b t).0 a j s,
    eq_iff a b,
    eq_iff b a,
    eq_iff a j,
    eq_iff b j,
  )

module _ {F : Type 0} (fl : Float64 F) where
  -- A round that has been closed stays as it is: closing it again, with whatever agents found dead,
  -- returns the same aggregation, and a result that comes in is refused and changes nothing.
  pub close_final :
      (r : InFlightRound F) (dead undispatched dead' undispatched' : List String) (id : String)
      (s : Sample F)
      → let (c, a) = close fl r dead undispatched in
        (close fl c dead' undispatched' ≡ (c, a)) × (add_result c id s ≡ (c, false))
  unfolding close add_result
  close_final r dead undispatched dead' undispatched' id s = ground arith

  close_open :
      (r : InFlightRound F) (dead undispatched : List String)
      → r.closed ≡ false
      → (close fl r dead undispatched).1 ≡ some (aggregate fl r.spec r.results dead undispatched)
  unfolding close
  close_open r dead undispatched h = ground arith

  close-add_result_twice :
      (r : InFlightRound F) (a b : String) (s t : Sample F) (dead undispatched : List String)
      → r.closed ≡ false
      → (close fl (add_result (add_result r a s).0 b t).0 dead undispatched).1
        ≡ some
            (aggregate fl r.spec (add_result (add_result r a s).0 b t).0.results dead undispatched)
  close-add_result_twice r a b s t dead undispatched h =
      let ra = (add_result r a s).0 in
      let (ca, sa) = add_result-frame r a s h in
      let (cab, sab) = add_result-frame ra b t ca in
      close_open (add_result ra b t).0 dead undispatched cab
      ∙ ap (λ spec. some (aggregate fl spec (add_result ra b t).0.results dead undispatched))
          (sab ∙ sa)

  -- The samples of two different agents may come to an open round in either order: it is closed
  -- with the same aggregation, the floating-point sums included.
  pub close-add_result_comm :
      (r : InFlightRound F) (a b : String) (s t : Sample F) (dead undispatched : List String)
      → r.closed ≡ false
      → a ≢ b
      → (close fl (add_result (add_result r a s).0 b t).0 dead undispatched).1
        ≡ (close fl (add_result (add_result r b t).0 a s).0 dead undispatched).1
  close-add_result_comm r a b s t dead undispatched h n =
      close-add_result_twice r a b s t dead undispatched h
      ∙ ap some (
          aggregate-lookup fl r.spec dead undispatched _ _
            (λ j. lookup-add_result_twice r a b j s t h n))
      ∙ sym (close-add_result_twice r b a t s dead undispatched h)

  add_agent-reported :
      (spec : RoundSpec F) (results : Results F) (dead undispatched : List String)
      (agg : Aggregation F) (id : String)
      → is_some (lookup id results) ≡ true
      → add_agent fl spec results dead undispatched agg id ≡ add_agent fl spec results [] [] agg id
  unfolding add_agent
  add_agent-reported spec results dead undispatched agg id h = ground arith

  add_agents-all_in :
      (spec : RoundSpec F) (results : Results F) (dead undispatched : List String)
      (agg : Aggregation F) (ids : List String)
      → keep (λ id. not (is_some (lookup id results))) ids ≡ []
      → add_agents fl spec results dead undispatched agg ids
        ≡ add_agents fl spec results [] [] agg ids
  unfolding add_agents
  add_agents-all_in spec results dead undispatched agg [] h = refl
  add_agents-all_in spec results dead undispatched agg (id ∷ ids) h =
      elim (Bool-cases (is_some (lookup id results))) [
        | inl e ↦ rw (add_agent-reported spec results dead undispatched agg id e) (
            add_agents-all_in spec results dead undispatched
              (add_agent fl spec results [] [] agg id) ids (ground arith))
        | inr e ↦ absurd (ground arith)
      ]

  -- Once every assigned agent has reported, the aggregation no longer depends on who is found dead
  -- or undispatched: the round may be closed early.
  pub close-pending_agents :
      (r : InFlightRound F) (dead undispatched : List String)
      → pending_agents r ≡ []
      → (close fl r dead undispatched).1 ≡ (close fl r [] []).1
  unfolding close pending_agents aggregate
  close-pending_agents r dead undispatched h = ground (
    arith,
    add_agents-all_in r.spec r.results dead undispatched (empty_aggregation fl r.spec)
        r.spec.agent_ids h,
  )
