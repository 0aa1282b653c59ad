-- ===== src/Examples/Sites.antt =====
-- A machine that enrolls, is approved while it is away, comes back for its credential, and is revoked.
use uptime_mesh.Prelude.{◌≡◌, refl, arith, true, false, List, [], ◌∷◌, none, some, mem?, lookup}
use uptime_mesh.Store.Agents.{
  Agent, AgentStatus, clear_cred_plain, update_agent, find_agent_by_id, find_agent_by_identity,
  find_agent_by_credential_hash, insert_agent, upsert_new, upsert_pending_agent, approve_agent,
  set_agent_name, is_approved,
}
use uptime_mesh.Hub.Registry.{empty_hub}
use uptime_mesh.Hub.Session.{
  Hello, AuthWorld, authenticate, by_enrollment_key, by_credential, credential_row,
  refresh_from_hello, pending_credential, same_capabilities,
}
use uptime_mesh.Site.{
  Site, Request, Frames, on_agent, approve_request, revoke_request, rename_request, open_session,
  serve,
}
use uptime_mesh.Site.Admission.{may_connect, status_at}
use uptime_mesh.Site.Answered.{is_barred}
use uptime_mesh.Site.Opening.{Sound}
use uptime_mesh.Site.Standing.{
  Deed, approves, revokes, renames, opens, act, acts, last_decision, acts-last_decision,
  authenticate-last_decision,
}
use uptime_mesh.Site.Barred.{acts-Sound}
use uptime_mesh.Site.Between.{is_connected, open_session-revoked}
use uptime_mesh.Site.Delivery.{answered, pending_credential-answered}
use uptime_mesh.Site.Machine.{Is, acts-Is}

abbrev frames : Frames
frames = record {
  hash_secret = λ secret. secret;
  hello_ack = λ status id. record { type = "hello_ack"; payload = id };
  credential = λ id credential. some (record { type = "credential"; payload = credential });
}

abbrev hello : Hello
hello = record {
  enrollment_key = "enroll";
  credential = "";
  agent_name = "tokyo-1";
  agent_version = "1.2";
  os = "linux";
  arch = "amd64";
  capabilities = "self_upgrade" ∷ [];
  ipv4_available = some true;
  ipv6_available = none;
}

abbrev comes_back : Hello
comes_back = record hello { credential = "agt_1" }

abbrev works : AuthWorld
works = record {
  find_fails = false;
  clear_fails = false;
  refresh_fails = false;
  deliver_fails = false;
  upsert = record { read_fails = false; write_fails = false };
  key_accepted = some true;
  new_id = "a1";
  now = 5_000_000_000;
}

abbrev on_a1 : Request
on_a1 = record {
  agent_id = "a1";
  find_fails = false;
  write_fails = false;
  credential = "agt_1";
  now = 9_000_000_000;
}

abbrev empty_site : Site
empty_site = record { agents = []; hub = empty_hub }

abbrev enrolled : List Deed
enrolled = opens works hello "10.0.0.7" "first" ∷ approves on_a1 ∷ renames on_a1 "Tokyo" 5 ∷ []

acts-last_decision_example :
    may_connect (acts frames empty_site enrolled).agents "a1"
    ≡ last_decision frames "a1" empty_site enrolled (may_connect [] "a1")
acts-last_decision_example = acts-last_decision frames enrolled empty_site "a1" (omega arith)

abbrev tokyo_row : Agent
tokyo_row = record {
  id = "a1";
  name = "Tokyo";
  enroll_name = "tokyo-1";
  version = "1.2";
  os = "linux";
  arch = "amd64";
  source_ip = "10.0.0.7";
  status = AgentStatus.approved;
  credential_hash = "agt_1";
  cred_plain = "agt_1";
  capabilities = "self_upgrade" ∷ [];
  ipv4_available = some true;
  ipv6_available = none;
  country = "";
  region = "";
  region_ip_cache = "";
  offline_notify = false;
  last_seen = 5;
  created_at = 5;
  updated_at = 9;
}

rows_after : (acts frames empty_site enrolled).agents ≡ tokyo_row ∷ []
unfolding acts act serve approve_request rename_request on_agent authenticate by_enrollment_key
    credential_row upsert_pending_agent upsert_new insert_agent find_agent_by_identity
    find_agent_by_id update_agent approve_agent set_agent_name
rows_after = refl

approved_again :
    (authenticate
      (λ secret. secret)
      works
      (acts frames empty_site enrolled).agents
      comes_back
      "10.0.0.7").1
    ≡ some (tokyo_row, AgentStatus.approved)
unfolding authenticate credential_row find_agent_by_credential_hash by_credential refresh_from_hello
    same_capabilities mem?
approved_again = rw rows_after refl

authenticate-last_decision_example :
    let t =
      authenticate
        (λ secret. secret)
        works
        (acts frames empty_site enrolled).agents
        comes_back
        "10.0.0.7" in
    (is_approved AgentStatus.approved
      ≡ last_decision frames "a1" empty_site enrolled (may_connect [] "a1"))
    × (is_barred (status_at t.0 "a1") ≡ false)
authenticate-last_decision_example =
    authenticate-last_decision frames enrolled empty_site works comes_back "10.0.0.7" tokyo_row
      AgentStatus.approved (omega arith) approved_again

acts-Sound_example : let t = acts frames empty_site enrolled in Sound t.agents t.hub
unfolding lookup
acts-Sound_example =
    acts-Sound frames enrolled empty_site (omega arith)
      ((λ j c e d. absurd (ground arith)), (λ j c e d. absurd (ground arith)))

it_waits : pending_credential false (acts frames empty_site enrolled).agents "a1" ≡ some "agt_1"
unfolding pending_credential find_agent_by_id
it_waits = rw rows_after refl

pending_credential-answered_example :
    answered frames
      (authenticate
        (λ secret. secret)
        works
        (acts frames empty_site enrolled).agents
        comes_back
        "10.0.0.7").1
    ≡ some AgentStatus.approved
unfolding find_agent_by_id
pending_credential-answered_example =
    pending_credential-answered frames enrolled empty_site works comes_back "10.0.0.7" "a1" "agt_1"
      (λ id a e. absurd (ground arith)) it_waits refl refl refl

abbrev goes_on : List Deed
goes_on = revokes on_a1 ∷ renames on_a1 "Osaka" 5 ∷ []

acts-Is_example :
    Is "tokyo-1" "10.0.0.7" "a1"
      (acts frames (record { agents = tokyo_row ∷ []; hub = empty_hub }) goes_on).agents
unfolding find_agent_by_identity
acts-Is_example =
    acts-Is frames "tokyo-1" "10.0.0.7" "a1" goes_on
      (record { agents = tokyo_row ∷ []; hub = empty_hub }) (refl, (refl, omega arith)) refl

abbrev one_approved : Site
one_approved = record { agents = tokyo_row ∷ []; hub = empty_hub }

-- The rows after the hello: its credential has arrived, so that the plain text is cleared.
abbrev greeted : List Agent
greeted = record tokyo_row { cred_plain = "" } ∷ []

admitted :
    authenticate (λ secret. secret) works one_approved.agents comes_back "10.0.0.7"
    ≡ (greeted, some (tokyo_row, AgentStatus.approved))
unfolding authenticate credential_row find_agent_by_credential_hash by_credential refresh_from_hello
    same_capabilities mem? clear_cred_plain update_agent
admitted = refl

open_session-revoked_example :
    let t = (revoke_request (record one_approved { agents = greeted }) on_a1).0 in
    (status_at t.agents "a1" ≡ some AgentStatus.revoked)
    × (is_connected
          (open_session frames works.deliver_fails t.agents t.hub "first" tokyo_row
            AgentStatus.approved works.now)
          "a1"
        ≡ true)
unfolding revoke_request on_agent find_agent_by_id
open_session-revoked_example =
    open_session-revoked frames works one_approved comes_back "10.0.0.7" greeted on_a1 tokyo_row
      AgentStatus.approved "first" admitted refl refl
