-- ===== src/Scheduler/Flight.antt =====
-- dashboard/internal/scheduler/round.go: a round that is still open. Each method is one critical
-- section of the round's mutex: it takes the state and returns the new one. A Go channel that is
-- only ever closed is a name in `waiters` while it is open, and in `woken` from then on.
pub mod Samples
pub mod Waiters
use uptime_mesh.Prelude.{
  ℕ, Bool, true, false, not, List, [], ◌∷◌, Option, none, some, String, if◌then◌else◌, keep,
  is_some, lookup, insert, mem?, remove,
}
use uptime_mesh.Prelude.Float64.{Float64}
use uptime_mesh.Scheduler.Round.{RoundSpec, Sample, Aggregation, Results, aggregate}

-- shared/protocol/protocol.go: the payload is the JSON text.
pub record Envelope : Type 0 where
  pub type : String
  pub payload : String

-- `closed` is also the state of `closedCh`, which `Close` closes with it.
pub record InFlightRound (F : Type 0) : Type 0 where
  pub spec : RoundSpec F
  pub results : Results F
  pub closed : Bool
  pub agg : Option (Aggregation F)
  pub task : Option Envelope
  pub dispatched : List String
  pub waiters : List String
  pub woken : List String

-- How a wait for an agent's result begins: the answer is known, or the caller blocks.
pub data Await : Type 0 where
  done : Bool → Await
  blocked : Await

-- What ends a wait: the agent's channel, the timer, the closing of the round, the context.
pub data WakeUp : Type 0 where
  result_in timed_out round_closed cancelled : WakeUp

module _ {F : Type 0} where
  unfoldable pub new_round : RoundSpec F → InFlightRound F
  new_round spec = record {
    spec = spec;
    results = [];
    closed = false;
    agg = none;
    task = none;
    dispatched = [];
    waiters = [];
    woken = [];
  }

  unfoldable pub set_task : InFlightRound F → Envelope → InFlightRound F
  set_task r env = record r { task = some env }

  unfoldable pub mark_dispatched : InFlightRound F → String → InFlightRound F
  mark_dispatched r agent_id = record r { dispatched = agent_id ∷ r.dispatched }

  abbrev pub is_dispatched : InFlightRound F → String → Bool
  is_dispatched r agent_id = mem? agent_id r.dispatched

  -- The agents assigned that have neither been given the task nor reported.
  unfoldable pub undispatched_agents : InFlightRound F → List String
  undispatched_agents r =
      keep
        (λ id.
          if is_dispatched r id
          then false
          else if is_some (lookup id r.results)
          then false
          else true)
        r.spec.agent_ids

  unfoldable pub pending_agents : InFlightRound F → List String
  pending_agents r = keep (λ id. not (is_some (lookup id r.results))) r.spec.agent_ids

  -- The sample is stored, and the channel of whoever waits for this agent is closed and taken out.
  store_sample : InFlightRound F → String → Sample F → InFlightRound F
  store_sample r agent_id s = record r {
    results = insert agent_id s r.results;
    waiters = remove agent_id r.waiters;
    woken = if mem? agent_id r.waiters then agent_id ∷ r.woken else r.woken;
  }

  unfoldable pub add_result : InFlightRound F → String → Sample F → InFlightRound F × Bool
  unfolding store_sample
  add_result r agent_id s =
      if r.closed
      then (r, false)
      else if is_some (lookup agent_id r.results)
      then (r, true)
      else (store_sample r agent_id s, true)

  -- The part of `AwaitResult` under the mutex, and its `select`.
  unfoldable pub await_result : InFlightRound F → String → InFlightRound F × Await
  await_result r agent_id =
      if is_some (lookup agent_id r.results)
      then (r, Await.done true)
      else if r.closed
      then (r, Await.done false)
      else if mem? agent_id r.waiters
      then (r, Await.blocked)
      else (record r { waiters = agent_id ∷ r.waiters }, Await.blocked)

abbrev pub await_outcome : WakeUp → Bool
await_outcome WakeUp.result_in = true
await_outcome _ = false

module _ {F : Type 0} (fl : Float64 F) where
  -- The first close: nothing was aggregated before.
  first_close :
      InFlightRound F → List String → List String → InFlightRound F × Option (Aggregation F)
  first_close r dead undispatched =
      let a = aggregate fl r.spec r.results dead undispatched in
      (record r { closed = true; agg = some a }, some a)

  -- `return *r.agg` faults on a closed round with no aggregation, which is `none` here.
  unfoldable pub close :
      InFlightRound F → List String → List String → InFlightRound F × Option (Aggregation F)
  unfolding first_close
  close r dead undispatched = if r.closed then (r, r.agg) else first_close r dead undispatched
