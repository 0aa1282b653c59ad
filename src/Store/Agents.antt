-- ===== src/Store/Agents.antt =====
-- The rows of `agents` and their statements, dashboard/internal/store/agents.go. The column
-- `capabilities` is the list that its JSON text answers for; the empty text in `cred_plain` is NULL.
-- Times are whole seconds, as stored.
pub mod Identity
use uptime_mesh.Prelude.{
  ℕ, Bool, true, false, ◌&&◌, ◌||◌, not, List, [], ◌∷◌, ◌++◌, Option, none, some, String, str_eq,
  if◌then◌else◌, any, keep,
}
use uptime_mesh.Store.{unix_sec}

pub data AgentStatus : Type 0 where
  pending approved revoked deleted : AgentStatus
  other : String → AgentStatus

abbrev pub is_approved : AgentStatus → Bool
is_approved AgentStatus.approved = true
is_approved _ = false

pub record Agent : Type 0 where
  pub id : String
  pub name : String
  pub enroll_name : String
  pub version : String
  pub os : String
  pub arch : String
  pub source_ip : String
  pub status : AgentStatus
  pub credential_hash : String
  pub cred_plain : String
  pub capabilities : List String
  pub ipv4_available : Option Bool
  pub ipv6_available : Option Bool
  pub country : String
  pub region : String
  pub region_ip_cache : String
  pub offline_notify : Bool
  pub last_seen : ℕ
  pub created_at : ℕ
  pub updated_at : ℕ

-- `UPDATE agents SET … WHERE id=?`
unfoldable pub update_agent : String → (Agent → Agent) → List Agent → List Agent
update_agent id f [] = []
update_agent id f (a ∷ rows) = (if str_eq a.id id then f a else a) ∷ update_agent id f rows

-- `WHERE enroll_name=? AND source_ip=?`
abbrev pub has_identity : String → String → Agent → Bool
has_identity enroll_name source_ip a =
    str_eq a.enroll_name enroll_name && str_eq a.source_ip source_ip

abbrev pub first_agent : (Agent → Bool) → List Agent → Option Agent
first_agent p [] = none
first_agent p (a ∷ rows) = if p a then some a else first_agent p rows

unfoldable pub find_agent_by_identity : List Agent → String → String → Option Agent
find_agent_by_identity rows enroll_name source_ip =
    first_agent (has_identity enroll_name source_ip) rows

unfoldable pub find_agent_by_id : List Agent → String → Option Agent
find_agent_by_id rows id = first_agent (λ a. str_eq a.id id) rows

-- `none` for the empty hash too.
unfoldable pub find_agent_by_credential_hash : List Agent → String → Option Agent
find_agent_by_credential_hash rows hash =
    if str_eq hash ""
    then none
    else first_agent (λ a. str_eq a.credential_hash hash && is_approved a.status) rows

-- The statement fails where the id or the pair of enroll name and address is taken: the primary
-- key and the index `uq_agents_identity`. `new_id` is what `NewID` makes.
abbrev pub completed : Agent → String → ℕ → Agent
completed a new_id now = record a {
  id = if str_eq a.id "" then new_id else a.id;
  enroll_name = if str_eq a.enroll_name "" then a.name else a.enroll_name;
  created_at = unix_sec now;
  updated_at = unix_sec now;
  last_seen = unix_sec now;
}

abbrev pub is_taken : List Agent → Agent → Bool
is_taken rows a = any (λ b. str_eq b.id a.id || has_identity a.enroll_name a.source_ip b) rows

unfoldable pub insert_agent : Bool → List Agent → Agent → String → ℕ → Option (List Agent × Agent)
insert_agent fails rows a new_id now =
    let row = completed a new_id now in
    if fails || is_taken rows row then none else some (rows ++ (row ∷ []), row)

-- `applyAgentRefresh`, which is also what the statement before it writes.
abbrev pub apply_agent_refresh : Agent → ℕ → Agent → Agent
apply_agent_refresh incoming now existing = record existing {
  version = incoming.version;
  os = incoming.os;
  arch = incoming.arch;
  capabilities = incoming.capabilities;
  ipv4_available = incoming.ipv4_available;
  ipv6_available = incoming.ipv6_available;
  last_seen = unix_sec now;
  updated_at = unix_sec now;
}

-- An agent that was deleted comes back as pending, with no credential in its row.
abbrev pub revive : Agent → ℕ → Agent → Agent
revive incoming now row = record (apply_agent_refresh incoming now row) {
  status = AgentStatus.pending;
  credential_hash = "";
  cred_plain = "";
}

-- What `UpsertPendingAgent` returns, with the record that it leaves in its argument.
pub data Upserted : Type 0 where
  answers : Agent → AgentStatus → Upserted
  refuses has_failed : Upserted

-- Which of its statements fail.
pub record AgentFaults : Type 0 where
  pub read_fails : Bool
  pub write_fails : Bool

-- The branch of an agent whose row is there. The record that the branch `deleted` returns keeps the
-- credential that the row loses.
unfoldable pub upsert_existing :
    Bool → List Agent → Agent → ℕ → Agent → AgentStatus → List Agent × Upserted
upsert_existing fails rows a now existing AgentStatus.revoked = (rows, refuses)
upsert_existing fails rows a now existing AgentStatus.approved =
    if fails then (rows, has_failed) else (
      update_agent existing.id (apply_agent_refresh a now) rows,
      answers (apply_agent_refresh a now existing) AgentStatus.approved,
    )
upsert_existing fails rows a now existing AgentStatus.deleted =
    if fails then (rows, has_failed) else (
      update_agent existing.id (revive a now) rows,
      answers (record (apply_agent_refresh a now existing) { status = AgentStatus.pending })
          AgentStatus.pending,
    )
upsert_existing fails rows a now existing _ = if fails then (rows, has_failed) else (
  update_agent existing.id (apply_agent_refresh a now) rows,
  answers (apply_agent_refresh a now existing) AgentStatus.pending,
)

unfoldable pub upsert_new : Bool → List Agent → Agent → String → ℕ → List Agent × Upserted
upsert_new fails rows a new_id now =
    elim (insert_agent fails rows (record a { status = AgentStatus.pending }) new_id now) [
      | none ↦ (rows, has_failed)
      | some (next, row) ↦ (next, answers row AgentStatus.pending)
    ]

unfoldable pub upsert_pending_agent :
    AgentFaults → List Agent → Agent → String → ℕ → List Agent × Upserted
upsert_pending_agent faults rows a new_id now =
    if faults.read_fails
    then (rows, has_failed)
    else elim (find_agent_by_identity rows a.name a.source_ip) [
      | none ↦ upsert_new faults.write_fails rows a new_id now
      | some existing ↦ upsert_existing faults.write_fails rows a now existing existing.status
    ]

-- The statements of the operator and of the sessions. A statement that fails leaves the rows.
unfoldable pub clear_cred_plain : List Agent → String → List Agent
clear_cred_plain rows id = update_agent id (λ a. record a { cred_plain = "" }) rows

abbrev pub approved_with : String → String → ℕ → Agent → Agent
approved_with hash credential now a = record a {
  status = AgentStatus.approved;
  credential_hash = hash;
  cred_plain = credential;
  updated_at = unix_sec now;
}

-- `hash_secret` is `HashSecret`, a digest of the library.
unfoldable pub approve_agent : (String → String) → List Agent → String → String → ℕ → List Agent
approve_agent hash_secret rows id credential now =
    update_agent id (approved_with (hash_secret credential) credential now) rows

abbrev pub barred_as : AgentStatus → ℕ → Agent → Agent
barred_as status now a = record a {
  status = status;
  credential_hash = "";
  cred_plain = "";
  updated_at = unix_sec now;
}

unfoldable pub revoke_agent : List Agent → String → ℕ → List Agent
revoke_agent rows id now = update_agent id (barred_as AgentStatus.revoked now) rows

unfoldable pub soft_delete_agent : List Agent → String → ℕ → List Agent
soft_delete_agent rows id now = update_agent id (barred_as AgentStatus.deleted now) rows

unfoldable pub delete_agent : List Agent → String → List Agent
delete_agent rows id = keep (λ a. not (str_eq a.id id)) rows

unfoldable pub touch_agent_last_seen : List Agent → String → ℕ → List Agent
touch_agent_last_seen rows id at = update_agent id (λ a. record a { last_seen = unix_sec at }) rows

-- `RefreshAgentHello` writes the fields of `hello`, a record as a session makes it.
unfoldable pub refresh_agent_hello : List Agent → String → Agent → ℕ → List Agent
refresh_agent_hello rows id hello now = update_agent id (apply_agent_refresh hello now) rows

abbrev pub or_kept : Option Bool → Option Bool → Option Bool
or_kept none old = old
or_kept (some b) old = some b

unfoldable pub set_agent_ip_availability :
    List Agent → String → Option Bool → Option Bool → List Agent
set_agent_ip_availability rows id ipv4 ipv6 =
    update_agent id
      (λ a. record a {
        ipv4_available = or_kept ipv4 a.ipv4_available;
        ipv6_available = or_kept ipv6 a.ipv6_available;
      })
      rows

unfoldable pub set_agent_auto_country : List Agent → String → String → String → ℕ → List Agent
set_agent_auto_country rows id country for_ip now =
    update_agent id
      (λ a. record a { country = country; region_ip_cache = for_ip; updated_at = unix_sec now })
      rows

unfoldable pub set_agent_region : List Agent → String → String → ℕ → List Agent
set_agent_region rows id region now =
    update_agent id (λ a. record a { region = region; updated_at = unix_sec now }) rows

unfoldable pub set_agent_name : List Agent → String → String → ℕ → List Agent
set_agent_name rows id name now =
    update_agent id (λ a. record a { name = name; updated_at = unix_sec now }) rows

unfoldable pub set_agent_offline_notify : List Agent → String → Bool → ℕ → List Agent
set_agent_offline_notify rows id on now =
    update_agent id (λ a. record a { offline_notify = on; updated_at = unix_sec now }) rows
