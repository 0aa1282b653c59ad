-- ===== src/CheckConfig.antt =====
-- shared/checkconfig/checkconfig.go: the kinds of monitors, the units and families, and the probe
-- configurations that are sent to agents. A text of the source that is compared with constants only
-- is a data type of those constants, with `other` for any other text.
use Prim.Native.String.{◌++◌}
use uptime_mesh.Prelude.{ℕ, Bool, true, false, List, String, if◌then◌else◌}
use uptime_mesh.Prelude.Float64.{Float64}

pub data MonitorType : Type 0 where
  http ping tcp push download : MonitorType
  other : String → MonitorType

pub data SpeedUnit : Type 0 where
  unset kb_per_s mb_per_s : SpeedUnit
  other : String → SpeedUnit

abbrev pub is_mb_per_s : SpeedUnit → Bool
is_mb_per_s SpeedUnit.mb_per_s = true
is_mb_per_s _ = false

unfoldable pub speed_unit_valid : SpeedUnit → Bool
speed_unit_valid (SpeedUnit.other u) = false
speed_unit_valid _ = true

module _ {F : Type 0} (fl : Float64 F) where
  unfoldable pub to_kbps : F → SpeedUnit → F
  to_kbps v unit = if is_mb_per_s unit then fl.mul v (fl.of_int 1024) else v

  unfoldable pub from_kbps : F → SpeedUnit → F
  from_kbps kbps unit = if is_mb_per_s unit then fl.div kbps (fl.of_int 1024) else kbps

pub data IpVersion : Type 0 where
  unset auto ipv4 ipv6 : IpVersion
  other : String → IpVersion

unfoldable pub ip_version_valid : IpVersion → Bool
ip_version_valid (IpVersion.other v) = false
ip_version_valid _ = true

unfoldable pub network : IpVersion → String → String
network IpVersion.ipv4 base = base ++ "4"
network IpVersion.ipv6 base = base ++ "6"
network _ base = base

unfoldable pub ip_family : IpVersion → ℕ
ip_family IpVersion.ipv4 = 4
ip_family IpVersion.ipv6 = 6
ip_family _ = 0

pub record Http : Type 0 where
  pub method : String
  pub url : String
  pub headers : List (String × String)
  pub body : String
  pub timeout_seconds : ℕ
  pub expect_status_codes : List ℕ
  pub expect_contains : List String
  pub expect_not_contains : List String
  pub allow_insecure_tls : Bool
  pub ip_version : IpVersion
  pub json_path : String
  pub json_path_operator : String
  pub expected_value : String

pub record Ping : Type 0 where
  pub host : String
  pub timeout_seconds : ℕ
  pub ip_version : IpVersion

pub record Tcp : Type 0 where
  pub host : String
  pub port : ℕ
  pub timeout_seconds : ℕ
  pub ip_version : IpVersion

pub record Download : Type 0 where
  pub method : String
  pub url : String
  pub headers : List (String × String)
  pub body : String
  pub timeout_seconds : ℕ
  pub allow_insecure_tls : Bool
  pub ip_version : IpVersion
