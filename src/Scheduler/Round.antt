-- ===== src/Scheduler/Round.antt =====
-- dashboard/internal/scheduler/round.go: the snapshot of a probe round, the samples that come back,
-- and their aggregation when the round is closed. Identifiers are texts, times are nanoseconds.
pub mod Missing
pub mod Counts
pub mod Rate
pub mod Arrival
pub mod Recovered
use uptime_mesh.Prelude.{
  ℕ, ◌+◌, Bool, true, false, not, List, [], ◌∷◌, ◌++◌, Option, none, some, String, ◌==◌, ltb,
  length, if◌then◌else◌, lookup, mem?,
}
use uptime_mesh.Prelude.Float64.{Float64}

-- `unset` is the empty text, which `createRound` leaves for all monitors but downloads.
pub data RoundMetric : Type 0 where
  unset success_rate speed : RoundMetric

pub record RoundSpec (F : Type 0) : Type 0 where
  pub round_id : String
  pub monitor_id : String
  pub agent_ids : List String
  pub deadline : ℕ
  pub scheduled_at : ℕ
  pub threshold : F
  pub consecutive : ℕ
  pub metric : RoundMetric
  pub serial_dispatch : Bool
  pub invert : Bool
  pub probe_timeout : ℕ

abbrev pub is_speed : RoundMetric → Bool
is_speed RoundMetric.speed = true
is_speed _ = false

unfoldable pub eff_ok : {F : Type 0} → RoundSpec F → Bool → Bool
eff_ok s raw_ok = if s.invert then not raw_ok else raw_ok

pub record Sample (F : Type 0) : Type 0 where
  pub ok : Bool
  pub latency_ms : F
  pub speed_kbps : F
  pub err_text : String

pub data RoundState : Type 0 where
  closed unknown : RoundState

pub record AgentSample (F : Type 0) : Type 0 where
  pub agent_id : String
  pub ok : Bool
  pub latency_ms : F
  pub error : String

-- `state` is `none` until the loop of `aggregate` has ended: Go's empty text.
pub record Aggregation (F : Type 0) : Type 0 where
  pub round_id : String
  pub monitor_id : String
  pub scheduled_at : ℕ
  pub success : ℕ
  pub valid : ℕ
  pub total_agents : ℕ
  pub success_rate : F
  pub latency_sum_ms : F
  pub latency_count : ℕ
  pub metric_value : F
  pub speed_sum_kbps : F
  pub speed_count : ℕ
  pub state : Option RoundState
  pub missing_alive : List String
  pub missing_dead : List String
  pub missing_undispatched : List String
  pub samples : List (AgentSample F)

-- What a round's samples are kept in: `map[string]sample`.
abbrev pub Results : Type 0 → Type 0
Results F = List (String × Sample F)

module _ {F : Type 0} (fl : Float64 F) where
  unfoldable pub avg_speed_kbps : Aggregation F → F
  avg_speed_kbps a =
      if a.speed_count == 0 then fl.of_int 0 else fl.div a.speed_sum_kbps (fl.of_int a.speed_count)

  abbrev pub empty_aggregation : RoundSpec F → Aggregation F
  empty_aggregation spec = record {
    round_id = spec.round_id;
    monitor_id = spec.monitor_id;
    scheduled_at = spec.scheduled_at;
    success = 0;
    valid = 0;
    total_agents = length spec.agent_ids;
    success_rate = fl.of_int 0;
    latency_sum_ms = fl.of_int 0;
    latency_count = 0;
    metric_value = fl.of_int 0;
    speed_sum_kbps = fl.of_int 0;
    speed_count = 0;
    state = none;
    missing_alive = [];
    missing_dead = [];
    missing_undispatched = [];
    samples = [];
  }

  -- The body of the loop for an agent that has reported.
  add_sample : RoundSpec F → Aggregation F → String → Sample F → Aggregation F
  unfolding eff_ok
  add_sample spec agg id s =
      let eff = eff_ok spec s.ok in
      record agg {
        valid = agg.valid + 1;
        latency_sum_ms = fl.add agg.latency_sum_ms s.latency_ms;
        latency_count = agg.latency_count + 1;
        success = if eff then agg.success + 1 else agg.success;
        samples =
            agg.samples
            ++ (record { agent_id = id; ok = eff; latency_ms = s.latency_ms; error = s.err_text }
                ∷ []);
        speed_sum_kbps =
            if is_speed spec.metric
            then (if s.ok then fl.add agg.speed_sum_kbps s.speed_kbps else agg.speed_sum_kbps)
            else agg.speed_sum_kbps;
        speed_count = if is_speed spec.metric then agg.speed_count + 1 else agg.speed_count;
      }

  -- The body of the loop for an agent with no sample: dead, never given the task, or silent.
  add_missing : RoundSpec F → List String → List String → Aggregation F → String → Aggregation F
  add_missing spec dead undispatched agg id =
      if mem? id dead
      then record agg { missing_dead = agg.missing_dead ++ (id ∷ []) }
      else if mem? id undispatched
      then record agg { missing_undispatched = agg.missing_undispatched ++ (id ∷ []) }
      else record agg {
        missing_alive = agg.missing_alive ++ (id ∷ []);
        valid = agg.valid + 1;
        speed_count = if is_speed spec.metric then agg.speed_count + 1 else agg.speed_count;
      }

  -- The body of the loop of `aggregate`.
  unfoldable pub add_agent :
      RoundSpec F → Results F → List String → List String → Aggregation F → String → Aggregation F
  unfolding add_sample add_missing
  add_agent spec results dead undispatched agg id = elim (lookup id results) [
    | some s ↦ add_sample spec agg id s
    | none ↦ add_missing spec dead undispatched agg id
  ]

  unfoldable pub add_agents :
      RoundSpec F
      → Results F
      → List String
      → List String
      → Aggregation F
      → List String
      → Aggregation F
  add_agents spec results dead undispatched agg [] = agg
  add_agents spec results dead undispatched agg (id ∷ ids) =
      add_agents spec results dead undispatched (add_agent spec results dead undispatched agg id)
        ids

  -- `float64(agg.Success) / float64(agg.Valid) * 100`
  unfoldable pub rate : ℕ → ℕ → F
  rate success valid = fl.mul (fl.div (fl.of_int success) (fl.of_int valid)) (fl.of_int 100)

  -- What follows the loop.
  unfoldable pub settle : RoundSpec F → Aggregation F → Aggregation F
  unfolding rate avg_speed_kbps
  settle spec agg =
      if agg.valid == 0 then record agg { state = some RoundState.unknown } else record agg {
        state = some RoundState.closed;
        success_rate = rate agg.success agg.valid;
        metric_value =
            if is_speed spec.metric then avg_speed_kbps agg else rate agg.success agg.valid;
      }

  unfoldable pub aggregate : RoundSpec F → Results F → List String → List String → Aggregation F
  unfolding settle add_agents
  aggregate spec results dead undispatched =
      settle spec
        (add_agents spec results dead undispatched (empty_aggregation spec) spec.agent_ids)
