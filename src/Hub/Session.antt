-- ===== src/Hub/Session.antt =====
-- dashboard/internal/hub/session.go: who an agent is that connects, what is refreshed of its row, and
-- what it is sent first. `hash_secret` and the encoders are parameters; `CheckEnrollmentKey` is an
-- input of a connection.
use uptime_mesh.Prelude.{
  ℕ, Bool, true, false, not, ◌&&◌, ◌||◌, List, [], ◌∷◌, Option, none, some, String, str_eq,
  if◌then◌else◌, length, mem?,
}
use uptime_mesh.Prelude.{◌==◌}
use uptime_mesh.Store.Agents.{
  Agent, AgentStatus, AgentFaults, Upserted, answers, refuses, has_failed, or_kept,
  find_agent_by_id, find_agent_by_credential_hash, upsert_pending_agent, clear_cred_plain,
  refresh_agent_hello, set_agent_ip_availability,
}

pub record Hello : Type 0 where
  pub enrollment_key : String
  pub credential : String
  pub agent_name : String
  pub agent_version : String
  pub os : String
  pub arch : String
  pub capabilities : List String
  pub ipv4_available : Option Bool
  pub ipv6_available : Option Bool

-- What one authentication meets: which statements fail, and the answer of `CheckEnrollmentKey`,
-- `none` for an error.
pub record AuthWorld : Type 0 where
  pub find_fails : Bool
  pub clear_fails : Bool
  pub refresh_fails : Bool
  pub deliver_fails : Bool
  pub upsert : AgentFaults
  pub key_accepted : Option Bool
  pub new_id : String
  pub now : ℕ

abbrev pub prefer : String → String → String
prefer incoming current = if str_eq incoming "" then current else incoming

abbrev pub same_bool_ptr : Option Bool → Option Bool → Bool
same_bool_ptr none none = true
same_bool_ptr (some true) (some true) = true
same_bool_ptr (some false) (some false) = true
same_bool_ptr _ _ = false

abbrev pub all_members : List String → List String → Bool
all_members set [] = true
all_members set (c ∷ cs) = mem? c set && all_members set cs

unfoldable pub same_capabilities : List String → List String → Bool
same_capabilities a b = if length a == length b then all_members a b else false

abbrev pub told_or_kept : List String → List String → List String
told_or_kept [] current = current
told_or_kept (c ∷ cs) current = c ∷ cs

-- The record with what the hello tells; what it leaves out stays.
abbrev pub merged : Hello → Agent → Agent
merged hello a = record a {
  version = prefer hello.agent_version a.version;
  os = prefer hello.os a.os;
  arch = prefer hello.arch a.arch;
  capabilities = told_or_kept hello.capabilities a.capabilities;
  ipv4_available = or_kept hello.ipv4_available a.ipv4_available;
  ipv6_available = or_kept hello.ipv6_available a.ipv6_available;
}

abbrev pub tells_nothing : Agent → Agent → Bool
tells_nothing new a =
    str_eq new.version a.version
    && (str_eq new.os a.os
        && (str_eq new.arch a.arch
            && (same_capabilities new.capabilities a.capabilities
                && (same_bool_ptr new.ipv4_available a.ipv4_available
                    && same_bool_ptr new.ipv6_available a.ipv6_available))))

-- `refreshAgentHello`: the rows, and the record of the session.
unfoldable pub refresh_from_hello : Bool → List Agent → Agent → Hello → ℕ → List Agent × Agent
refresh_from_hello fails rows a hello now =
    if tells_nothing (merged hello a) a || fails
    then (rows, a)
    else (refresh_agent_hello rows a.id (merged hello a) now, merged hello a)

-- The record that the path of the enrollment key makes; the statement sets the times.
abbrev pub self_reported : Hello → String → Agent
self_reported hello source_ip = record {
  id = "";
  name = hello.agent_name;
  enroll_name = "";
  version = hello.agent_version;
  os = hello.os;
  arch = hello.arch;
  source_ip = source_ip;
  status = AgentStatus.pending;
  credential_hash = "";
  cred_plain = "";
  capabilities = hello.capabilities;
  ipv4_available = hello.ipv4_available;
  ipv6_available = hello.ipv6_available;
  country = "";
  region = "";
  region_ip_cache = "";
  offline_notify = false;
  last_seen = 0;
  created_at = 0;
  updated_at = 0;
}

-- `none` in the answer is an error: the session ends.
abbrev pub Admitted : Type 0
Admitted = List Agent × Option (Agent × AgentStatus)

abbrev pub admitted_by : List Agent × Upserted → Admitted
admitted_by (rows, answers a status) = (rows, some (a, status))
admitted_by (rows, refuses) = (rows, none)
admitted_by (rows, has_failed) = (rows, none)

unfoldable pub by_enrollment_key : AuthWorld → List Agent → Hello → String → Admitted
by_enrollment_key w rows hello source_ip =
    if not (str_eq hello.enrollment_key "") && not (str_eq hello.agent_name "")
    then elim w.key_accepted [
      | none ↦ (rows, none)
      | some ok ↦
          if ok
          then admitted_by
              (upsert_pending_agent w.upsert rows (self_reported hello source_ip) w.new_id w.now)
          else (rows, none)
    ]
    else (rows, none)

unfoldable pub by_credential : AuthWorld → List Agent → Hello → Agent → Admitted
by_credential w rows hello a =
    let cleared = if w.clear_fails then rows else clear_cred_plain rows a.id in
    let (next, b) = refresh_from_hello w.refresh_fails cleared a hello w.now in
    (next, some (b, AgentStatus.approved))

-- The row that the credential of the hello fits.
unfoldable pub credential_row : (String → String) → AuthWorld → List Agent → Hello → Option Agent
credential_row hash_secret w rows hello =
    if str_eq hello.credential "" || w.find_fails
    then none
    else find_agent_by_credential_hash rows (hash_secret hello.credential)

unfoldable pub authenticate : (String → String) → AuthWorld → List Agent → Hello → String → Admitted
authenticate hash_secret w rows hello source_ip = elim (credential_row hash_secret w rows hello) [
  | some a ↦ by_credential w rows hello a
  | none ↦ by_enrollment_key w rows hello source_ip
]

-- `deliverPendingCredential`: the credential that is sent, if any.
unfoldable pub pending_credential : Bool → List Agent → String → Option String
pending_credential fails rows id = if fails then none else elim (find_agent_by_id rows id) [
  | none ↦ none
  | some a ↦ if str_eq a.cred_plain "" then none else some a.cred_plain
]

-- The cached families of a connection, and the rows, after a heartbeat of it.
pub record Families : Type 0 where
  pub ipv4 : Option Bool
  pub ipv6 : Option Bool

unfoldable pub refresh_ip_families :
    Bool → List Agent → String → Families → Families → List Agent × Families
refresh_ip_families fails rows id cached heartbeat =
    let next : Families = record {
      ipv4 = or_kept heartbeat.ipv4 cached.ipv4;
      ipv6 = or_kept heartbeat.ipv6 cached.ipv6;
    } in
    if same_bool_ptr next.ipv4 cached.ipv4 && same_bool_ptr next.ipv6 cached.ipv6
    then (rows, cached)
    else (if fails then rows else set_agent_ip_availability rows id next.ipv4 next.ipv6, next)
