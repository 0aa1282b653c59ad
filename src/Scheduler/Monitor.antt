-- ===== src/Scheduler/Monitor.antt =====
-- The monitor's configuration (dashboard/internal/store/monitors.go), as far as the scheduler reads
-- it, and what a round takes from it (dashboard/internal/scheduler/scheduler.go). The JSON encoder is
-- a parameter.
use uptime_mesh.Prelude.{ℕ, Bool, not, List, Option, none, some, String, keep, mem?}
use uptime_mesh.CheckConfig.{MonitorType, SpeedUnit, IpVersion, Http, Ping, Tcp, Download}

pub data AssignMode : Type 0 where
  unset selected all exclude : AssignMode
  other : String → AssignMode

pub record Monitor (F : Type 0) : Type 0 where
  pub id : String
  pub type : MonitorType
  pub name : String
  pub period : ℕ
  pub timeout : ℕ
  pub threshold : F
  pub consecutive : ℕ
  pub url : String
  pub method : String
  pub headers : List (String × String)
  pub body : String
  pub expect_status_codes : List ℕ
  pub expect_contains : List String
  pub expect_not_contains : List String
  pub allow_insecure_tls : Bool
  pub invert_mode : Bool
  pub ip_version : IpVersion
  pub json_path : String
  pub json_path_operator : String
  pub json_assert_expect : String
  pub target_host : String
  pub port : ℕ
  pub speed_unit : SpeedUnit
  pub last_push_at : ℕ
  pub assign_mode : AssignMode
  pub assigned_agent_ids : List String
  pub excluded_agent_ids : List String
  pub created_at : ℕ

pub data Check : Type 0 where
  http : Http → Check
  ping : Ping → Check
  tcp : Tcp → Check
  download : Download → Check

-- The configuration that is encoded; none for a push monitor and for an unknown type.
module _ {F : Type 0} where
  check_of : MonitorType → Monitor F → Option Check
  check_of MonitorType.http m = some (
      Check.http (record {
        method = m.method;
        url = m.url;
        headers = m.headers;
        body = m.body;
        timeout_seconds = m.timeout;
        expect_status_codes = m.expect_status_codes;
        expect_contains = m.expect_contains;
        expect_not_contains = m.expect_not_contains;
        allow_insecure_tls = m.allow_insecure_tls;
        ip_version = m.ip_version;
        json_path = m.json_path;
        json_path_operator = m.json_path_operator;
        expected_value = m.json_assert_expect;
      }))
  check_of MonitorType.ping m = some (
      Check.ping
        (record { host = m.target_host; timeout_seconds = m.timeout; ip_version = m.ip_version }))
  check_of MonitorType.tcp m = some (
      Check.tcp (record {
        host = m.target_host;
        port = m.port;
        timeout_seconds = m.timeout;
        ip_version = m.ip_version;
      }))
  check_of MonitorType.download m = some (
      Check.download (record {
        method = m.method;
        url = m.url;
        headers = m.headers;
        body = m.body;
        timeout_seconds = m.timeout;
        allow_insecure_tls = m.allow_insecure_tls;
        ip_version = m.ip_version;
      }))
  check_of MonitorType.push m = none
  check_of (MonitorType.other t) m = none

  unfoldable pub check_payload : (Check → Option String) → Monitor F → Option String
  unfolding check_of
  check_payload marshal m = elim (check_of m.type m) [ none ↦ none | some c ↦ marshal c ]

  -- The approved agents less those that the monitor excludes.
  excluding : Monitor F → Option (List String) → Option (List String)
  excluding m none = none
  excluding m (some agents) = some (keep (λ id. not (mem? id m.excluded_agent_ids)) agents)

  assigned_by : AssignMode → Monitor F → Option (List String) → Option (List String)
  assigned_by AssignMode.all m approved = excluding m approved
  assigned_by AssignMode.exclude m approved = excluding m approved
  assigned_by _ m approved = some m.assigned_agent_ids

  -- `approved` is what `FindAgentsByStatus` returns, `none` where it fails.
  unfoldable pub assigned_agents : Monitor F → Option (List String) → Option (List String)
  unfolding assigned_by excluding
  assigned_agents m approved = assigned_by m.assign_mode m approved
