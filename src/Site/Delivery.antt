-- ===== src/Site/Delivery.antt =====
-- The delivery of credentials (`deliverPendingCredential` of dashboard/internal/hub/session.go) after
-- sequences of requests and sessions.
use uptime_mesh.Prelude.{
  ℕ, ◌≡◌, refl, ap, Bool, true, false, ◌&&◌, List, [], ◌∷◌, Option, none, some, String, str_eq,
  eq_iff, arith, is_some, Option-cases, inl, inr,
}
use uptime_mesh.Store.Agents.{
  Agent, AgentStatus, approved, revoked, deleted, is_approved, update_agent, find_agent_by_id,
  find_agent_by_credential_hash, approve_agent, revoke_agent, soft_delete_agent, set_agent_name,
  set_agent_offline_notify, approved_with, barred_as,
}
use uptime_mesh.Hub.Session.{
  Hello, AuthWorld, authenticate, by_credential, credential_row, pending_credential,
}
use uptime_mesh.Site.{
  Site, Request, Frames, grant, revoking, on_agent, is_pending, is_revoked, approve_request,
  re_approve_request, reject_request, revoke_request, delete_request, rename_request,
  notify_request,
}
use uptime_mesh.Site.Standing.{
  Deed, approves, re_approves, rejects, revokes, deletes, renames, notifies, opens, act, acts,
  on_agent-cases, serve-agents,
}
use uptime_mesh.Site.Credentials.{
  update-Rows, delete-Rows, is_deliverable, Deliverable, authenticate-Deliverable, first_agent-some,
}

module _ (hash_secret : String → String) where
  grant-Deliverable :
      (rows : List Agent) (id credential : String) (now : ℕ)
      → Deliverable hash_secret rows
      → Deliverable hash_secret (approve_agent hash_secret rows id credential now)
  unfolding approve_agent
  grant-Deliverable rows id credential now =
      let hash = hash_secret credential in
      update-Rows (is_deliverable hash_secret) id (approved_with hash credential now) rows
        (λ c. refl) (λ c h. ground (arith, eq_iff hash hash))

  bar-Deliverable :
      (rows : List Agent) (id : String) (status : AgentStatus) (now : ℕ)
      → Deliverable hash_secret rows
      → Deliverable hash_secret (update_agent id (barred_as status now) rows)
  bar-Deliverable rows id status now =
      update-Rows (is_deliverable hash_secret) id (barred_as status now) rows (λ c. refl)
        (λ c h. refl)

  on_agent-Deliverable :
      (allowed : AgentStatus → Bool) (write : Site → Site) (s : Site) (r : Request)
      → Deliverable hash_secret s.agents
      → Deliverable hash_secret (write s).agents
      → Deliverable hash_secret (on_agent allowed write s r).0.agents
  on_agent-Deliverable allowed write s r all k = elim (on_agent-cases allowed write s r) [
    | inl (e, f) ↦ rw e all
    | inr (a, n, p, e) ↦ rw e k
  ]

module _ (fr : Frames) where
  act-Deliverable :
      (s : Site) (d : Deed)
      → Deliverable fr.hash_secret s.agents
      → Deliverable fr.hash_secret (act fr s d).0.agents
  unfolding act approve_request re_approve_request reject_request revoke_request delete_request
      rename_request notify_request revoke_agent soft_delete_agent set_agent_name
      set_agent_offline_notify
  act-Deliverable s (approves r) all =
      on_agent-Deliverable fr.hash_secret is_pending (grant fr r) s r all
        (grant-Deliverable fr.hash_secret s.agents r.agent_id r.credential r.now all)
  act-Deliverable s (re_approves r) all =
      on_agent-Deliverable fr.hash_secret is_revoked (grant fr r) s r all
        (grant-Deliverable fr.hash_secret s.agents r.agent_id r.credential r.now all)
  act-Deliverable s (rejects r) all =
      on_agent-Deliverable fr.hash_secret _ _ s r all
        (delete-Rows (is_deliverable fr.hash_secret) r.agent_id s.agents all)
  act-Deliverable s (revokes r) all =
      on_agent-Deliverable fr.hash_secret is_approved (revoking r) s r all
        (bar-Deliverable fr.hash_secret s.agents r.agent_id revoked r.now all)
  act-Deliverable s (deletes r) all =
      on_agent-Deliverable fr.hash_secret _ _ s r all
        (bar-Deliverable fr.hash_secret s.agents r.agent_id deleted r.now all)
  act-Deliverable s (renames r name runes) all =
      on_agent-Deliverable fr.hash_secret _ _ s r all (
        update-Rows (is_deliverable fr.hash_secret) r.agent_id _ s.agents (λ c. refl) (λ c h. h)
          all)
  act-Deliverable s (notifies r on) all =
      on_agent-Deliverable fr.hash_secret _ _ s r all (
        update-Rows (is_deliverable fr.hash_secret) r.agent_id _ s.agents (λ c. refl) (λ c h. h)
          all)
  act-Deliverable s (opens w hello source_ip key) all =
      rw (serve-agents fr w s hello source_ip key)
        (authenticate-Deliverable fr.hash_secret w s.agents hello source_ip all)

  acts-Deliverable :
      (ds : List Deed) (s : Site)
      → Deliverable fr.hash_secret s.agents
      → Deliverable fr.hash_secret (acts fr s ds).agents
  unfolding acts
  acts-Deliverable [] s all = all
  acts-Deliverable (d ∷ ds) s all = acts-Deliverable ds (act fr s d).0 (act-Deliverable s d all)

  abbrev pub answered : Option (Agent × AgentStatus) → Option AgentStatus
  answered none = none
  answered (some (a, st)) = some st

  credential_row-found :
      (w : AuthWorld) (rows : List Agent) (hello : Hello) (id : String) (a : Agent)
      → Deliverable fr.hash_secret rows
      → find_agent_by_id rows id ≡ some a
      → str_eq a.cred_plain "" ≡ false
      → hello.credential ≡ a.cred_plain
      → w.find_fails ≡ false
      → str_eq (fr.hash_secret hello.credential) "" ≡ false
      → is_some (credential_row fr.hash_secret w rows hello) ≡ true
  unfolding credential_row find_agent_by_credential_hash
  credential_row-found w rows hello id a all e n same ok h =
      let hash = fr.hash_secret hello.credential in
      let p = λ (b : Agent). str_eq b.credential_hash hash && is_approved b.status in
      let hashes = ap fr.hash_secret same in
      let passes : p a ≡ true = ground (
        arith,
        all id a e,
        hashes,
        eq_iff a.credential_hash hash,
        eq_iff a.credential_hash (fr.hash_secret a.cred_plain),
      ) in
      ground (
        arith,
        first_agent-some fr.hash_secret p rows id a e passes,
        eq_iff hello.credential "",
        eq_iff a.cred_plain "",
      )

  -- Start from rows in which a credential waits only in an approved row, beside its own hash, such
  -- as no rows. After any sequence of the operator's requests and of openings of sessions, let a
  -- credential be sent to an agent because it waits in its row. An agent that presents it next, at
  -- an authentication whose reading does not fail, is answered as approved, provided that the hash
  -- of the credential is not the empty text.
  pub pending_credential-answered :
      (ds : List Deed) (s : Site) (w : AuthWorld) (hello : Hello) (source_ip id credential : String)
      → Deliverable fr.hash_secret s.agents
      → pending_credential false (acts fr s ds).agents id ≡ some credential
      → hello.credential ≡ credential
      → w.find_fails ≡ false
      → str_eq (fr.hash_secret credential) "" ≡ false
      → answered (authenticate fr.hash_secret w (acts fr s ds).agents hello source_ip).1
        ≡ some approved
  unfolding pending_credential authenticate by_credential
  pending_credential-answered ds s w hello source_ip id credential start sent same ok h =
      let rows = (acts fr s ds).agents in
      let all = acts-Deliverable ds s start in
      elim (Option-cases (find_agent_by_id rows id)) [
        | inl n ↦ absurd (ground arith)
        | inr (a, n) ↦
            let this : hello.credential ≡ a.cred_plain = ground arith in
            let hashes = ap fr.hash_secret same in
            let found =
              credential_row-found w rows hello id a all n (ground arith) this ok
                (ground (arith, hashes)) in
            ground (arith, found)
      ]
