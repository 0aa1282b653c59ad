-- ===== src/Scheduler/World.antt =====
-- The state of the scheduler (dashboard/internal/scheduler/scheduler.go) with the tables that it
-- writes, and what it meets outside: the clock, the agents' answers, statements that fail.
use uptime_mesh.Prelude.{ℕ, Bool, List, Option, String}
use uptime_mesh.Alert.{Event}
use uptime_mesh.Store.Rounds.{Round, CheckResult}
use uptime_mesh.Store.States.{MonitorState, MonitorStateChange, HourlyStat}
use uptime_mesh.Scheduler.Plan.{MonitorSlot}
use uptime_mesh.Scheduler.Round.{Aggregation}
use uptime_mesh.Scheduler.Flight.{InFlightRound, Envelope}
use uptime_mesh.Scheduler.Monitor.{Monitor}

-- `last_pushes` is the column `last_push_at` of the monitors, in seconds.
pub record Tables (F : Type 0) : Type 0 where
  pub rounds : List (Round F)
  pub results : List (CheckResult F)
  pub hourly : List (HourlyStat F)
  pub states : List (MonitorState F)
  pub changes : List (MonitorStateChange F)
  pub last_pushes : List (String × ℕ)

-- One call of `OnRoundFinalized`.
pub record Notice (F : Type 0) : Type 0 where
  pub monitor : Monitor F
  pub agg : Aggregation F
  pub event : Option (Event F)
  pub state : MonitorState F

-- `sent` are the frames handed to the hub, `finalized` the calls of `OnRoundFinalized`; both oldest
-- first. `grace` is in nanoseconds.
pub record Scheduler (F : Type 0) : Type 0 where
  pub rounds : List (String × InFlightRound F)
  pub monitors : List (String × MonitorSlot)
  pub grace : ℕ
  pub db : Tables F
  pub sent : List (String × Envelope)
  pub finalized : List (Notice F)

-- What one handler meets. `online` is the answer to a ping, `accepts` whether the hub takes a frame
-- for an agent; `fresh_id` is the id that a new row gets; `find_monitor` is `none` for a monitor that
-- is gone or cannot be read, `approved` the ids of the approved agents, if they can be read;
-- `stopping` is whether the scheduler's context has ended; the other fields say which statements fail.
pub record World (F : Type 0) : Type 0 where
  pub now : ℕ
  pub fresh_id : String
  pub online : String → Bool
  pub accepts : String → Bool
  pub find_monitor : String → Option (Monitor F)
  pub approved : Option (List String)
  pub close_fails : Bool
  pub hourly_fails : Bool
  pub state_read_fails : Bool
  pub state_write_fails : Bool
  pub change_read_fails : Bool
  pub change_write_fails : Bool
  pub round_insert_fails : Bool
  pub result_insert_fails : Bool
  pub push_time_fails : Bool
  pub stopping : Bool
