-- ===== src/Examples/Data.antt =====
-- A monitor, three agents, a round of theirs, and a scheduler with nothing else in it.
use native.Mathlib.Nat.{div_self}
use uptime_mesh.Prelude.{
  ℕ, ◌≡◌, refl, ◌<◌, ◌^◌, ◌/◌, true, false, [], ◌∷◌, none, some, String, arith, str_eq,
  if◌then◌else◌,
}
use uptime_mesh.Prelude.Float64.{Lawful, whole}
use uptime_mesh.CheckConfig.{MonitorType, SpeedUnit, IpVersion}
use uptime_mesh.Store.Rounds.{Round, RowState}
use uptime_mesh.Scheduler.Round.{RoundSpec, RoundMetric, Sample, Results}
use uptime_mesh.Scheduler.Flight.{InFlightRound, Envelope}
use uptime_mesh.Scheduler.Monitor.{Monitor, AssignMode}
use uptime_mesh.Scheduler.World.{World, Scheduler, Tables}

div_self_lem : (n : ℕ) → 0 < n → n < 2 ^ 53 → n / n ≡ 1
div_self_lem n h b = div_self h

div_zero_lem : (n : ℕ) → 0 < n → n < 2 ^ 53 → 0 / n ≡ 0
div_zero_lem n h b = omega arith

pub whole-Lawful : Lawful whole
whole-Lawful = record {
  div_self = div_self_lem;
  div_zero = div_zero_lem;
  mul_int = λ a b h. refl;
  lt_int = λ a b h k. refl;
}

abbrev pub the_monitor : String
the_monitor = "6aa3eaea721b7851dac0d93e"

abbrev pub the_round : String
the_round = "6aa3eaea721b7851dac0d001"

abbrev pub tokyo : String
tokyo = "6aa3eaea721b7851dac0d0a1"

abbrev pub paris : String
paris = "6aa3eaea721b7851dac0d0a2"

abbrev pub lima : String
lima = "6aa3eaea721b7851dac0d0a3"

abbrev pub monitor : Monitor ℕ
monitor = record {
  id = the_monitor;
  type = MonitorType.http;
  name = "shop";
  period = 60;
  timeout = 10;
  threshold = 50;
  consecutive = 2;
  url = "https://shop.example/health";
  method = "GET";
  headers = [];
  body = "";
  expect_status_codes = 200 ∷ [];
  expect_contains = [];
  expect_not_contains = [];
  allow_insecure_tls = false;
  invert_mode = false;
  ip_version = IpVersion.auto;
  json_path = "";
  json_path_operator = "";
  json_assert_expect = "";
  target_host = "";
  port = 0;
  speed_unit = SpeedUnit.unset;
  last_push_at = 0;
  assign_mode = AssignMode.selected;
  assigned_agent_ids = tokyo ∷ paris ∷ lima ∷ [];
  excluded_agent_ids = [];
  created_at = 0;
}

-- The monitor can be found; of the agents only lima answers no ping and takes no frame.
abbrev pub world : World ℕ
world = record {
  now = 600_000_000_000;
  fresh_id = the_round;
  online = λ id. if str_eq id lima then false else true;
  accepts = λ id. if str_eq id lima then false else true;
  find_monitor = λ id. some monitor;
  approved = some (tokyo ∷ paris ∷ lima ∷ []);
  close_fails = false;
  hourly_fails = false;
  state_read_fails = false;
  state_write_fails = false;
  change_read_fails = false;
  change_write_fails = false;
  round_insert_fails = false;
  result_insert_fails = false;
  push_time_fails = false;
  stopping = false;
}

abbrev pub spec : RoundSpec ℕ
spec = record {
  round_id = the_round;
  monitor_id = the_monitor;
  agent_ids = tokyo ∷ paris ∷ lima ∷ [];
  deadline = 620_000_000_000;
  scheduled_at = 600_000_000_000;
  threshold = 50;
  consecutive = 2;
  metric = RoundMetric.unset;
  serial_dispatch = false;
  invert = false;
  probe_timeout = 10_000_000_000;
}

abbrev pub fine : Sample ℕ
fine = record { ok = true; latency_ms = 40; speed_kbps = 0; err_text = "" }

abbrev pub broken : Sample ℕ
broken = record { ok = false; latency_ms = 10; speed_kbps = 0; err_text = "status 500" }

abbrev pub one_in : Results ℕ
one_in = (tokyo, fine) ∷ []

abbrev pub two_in : Results ℕ
two_in = (paris, broken) ∷ (tokyo, fine) ∷ []

abbrev pub task : Envelope
task = record { type = "probe_task"; payload = "{}" }

-- Tokyo has reported, paris was given the task, lima was not.
abbrev pub flight : InFlightRound ℕ
flight = record {
  spec = spec;
  results = one_in;
  closed = false;
  agg = none;
  task = some task;
  dispatched = paris ∷ tokyo ∷ [];
  waiters = [];
  woken = [];
}

-- Nobody was given the task.
abbrev pub unheard : InFlightRound ℕ
unheard = record flight { results = []; dispatched = [] }

-- The row of the round.
abbrev pub open_row : Round ℕ
open_row = record {
  id = the_round;
  monitor_id = the_monitor;
  assigned_agent_ids = tokyo ∷ paris ∷ lima ∷ [];
  scheduled_at = 600;
  deadline = 620;
  closed_at = 0;
  state = RowState.opened;
  success = 0;
  valid = 0;
  total_agents = 3;
  success_rate = 0;
  latency_sum_ms = 0;
  latency_count = 0;
  speed_sum_kbps = 0;
  speed_count = 0;
  missing_alive = [];
  missing_dead = [];
  missing_undispatched = [];
  created_at = 600;
}

abbrev pub tables : Tables ℕ
tables = record {
  rounds = open_row ∷ [];
  results = [];
  hourly = [];
  states = [];
  changes = [];
  last_pushes = [];
}

abbrev pub scheduler : Scheduler ℕ
scheduler = record {
  rounds = (the_round, flight) ∷ [];
  monitors = [];
  grace = 5_000_000_000;
  db = tables;
  sent = [];
  finalized = [];
}
