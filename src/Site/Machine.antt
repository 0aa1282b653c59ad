-- ===== src/Site/Machine.antt =====
-- Which agent a machine is that comes back (`findAgentByIdentity` and `UpsertPendingAgent` of
-- dashboard/internal/store/agents.go).
use uptime_mesh.Prelude.{
  ℕ, ◌≡◌, refl, ◌∙◌, Bool, true, false, not, List, [], ◌∷◌, ◌++◌, Option, none, some, String,
  str_eq, eq_iff, arith, All, Option-cases, inl, inr,
}
use uptime_mesh.Store.Agents.{
  Agent, AgentStatus, AgentFaults, revoked, deleted, is_approved, update_agent, has_identity,
  find_agent_by_identity, insert_agent, completed, upsert_existing, upsert_new,
  upsert_pending_agent, apply_agent_refresh, revive, clear_cred_plain, refresh_agent_hello,
  approve_agent, revoke_agent, soft_delete_agent, delete_agent, set_agent_name,
  set_agent_offline_notify, approved_with, barred_as,
}
use uptime_mesh.Hub.Session.{
  Hello, AuthWorld, authenticate, by_credential, credential_row, self_reported, refresh_from_hello,
  merged,
}
use uptime_mesh.Site.{
  Site, Request, Frames, grant, revoking, on_agent, is_pending, is_revoked, approve_request,
  re_approve_request, reject_request, revoke_request, delete_request, rename_request,
  notify_request,
}
use uptime_mesh.Site.Admission.{by_enrollment_key-rows}
use uptime_mesh.Site.Standing.{
  Deed, approves, re_approves, rejects, revokes, deletes, renames, notifies, opens, act, acts,
  on_agent-cases, serve-agents,
}

abbrev pub id_of : Option Agent → Option String
id_of none = none
id_of (some a) = some a.id

-- The agent that a machine with this enroll name and address is.
abbrev pub agent_of : List Agent → String → String → Option String
agent_of rows enroll_name source_ip = id_of (find_agent_by_identity rows enroll_name source_ip)

-- An update that leaves the ids, the enroll names and the addresses.
pub update-agent_of :
    (id : String) (f : Agent → Agent) (rows : List Agent) (e ip : String)
    → ((a : Agent) → (f a).id ≡ a.id)
    → ((a : Agent) → has_identity e ip (f a) ≡ has_identity e ip a)
    → agent_of (update_agent id f rows) e ip ≡ agent_of rows e ip
unfolding find_agent_by_identity update_agent
update-agent_of id f [] e ip h k = refl
update-agent_of id f (a ∷ rows) e ip h k =
    ground (arith, h a, k a, update-agent_of id f rows e ip h k)

append-agent_of :
    (rows : List Agent) (c : Agent) (e ip id : String)
    → agent_of rows e ip ≡ some id
    → agent_of (rows ++ (c ∷ [])) e ip ≡ some id
unfolding find_agent_by_identity
append-agent_of [] c e ip id h = cc
append-agent_of (a ∷ rows) c e ip id h = ground (arith, append-agent_of rows c e ip id)

delete-agent_of :
    (rows : List Agent) (gone e ip id : String)
    → str_eq gone id ≡ false
    → agent_of rows e ip ≡ some id
    → agent_of (delete_agent rows gone) e ip ≡ some id
unfolding find_agent_by_identity delete_agent
delete-agent_of [] gone e ip id n h = cc
delete-agent_of (a ∷ rows) gone e ip id n h =
    ground (arith, eq_iff a.id gone, eq_iff gone id, delete-agent_of rows gone e ip id n)

module _ (e ip id : String) where
  -- The machine is the agent `id`.
  abbrev pub Is : List Agent → Type 0
  Is rows = agent_of rows e ip ≡ some id

  upsert_pending_agent-Is :
      (faults : AgentFaults) (rows : List Agent) (a : Agent) (new_id : String) (now : ℕ)
      → Is rows
      → Is (upsert_pending_agent faults rows a new_id now).0
  unfolding upsert_pending_agent upsert_new upsert_existing insert_agent
  upsert_pending_agent-Is faults rows a new_id now h =
      elim (Option-cases (find_agent_by_identity rows a.name a.source_ip)) [
        | inl n ↦ ground (
          arith,
          h,
          append-agent_of rows (completed (record a { status = AgentStatus.pending }) new_id now) e
              ip id h,
        )
        | inr (x, n) ↦
            let refreshed =
              update-agent_of x.id (apply_agent_refresh a now) rows e ip (λ c. refl) (λ c. refl) in
            let revived = update-agent_of x.id (revive a now) rows e ip (λ c. refl) (λ c. refl) in
            ground (arith, h, refreshed, revived)
      ]

  by_credential-Is :
      (w : AuthWorld) (rows : List Agent) (hello : Hello) (a : Agent)
      → Is rows
      → Is (by_credential w rows hello a).0
  unfolding by_credential refresh_from_hello refresh_agent_hello clear_cred_plain
  by_credential-Is w rows hello a h =
      let f : Agent → Agent = λ c. record c { cred_plain = "" } in
      let g = apply_agent_refresh (merged hello a) w.now in
      let cleared = update-agent_of a.id f rows e ip (λ c. refl) (λ c. refl) in
      let refreshed = update-agent_of a.id g rows e ip (λ c. refl) (λ c. refl) in
      let both = update-agent_of a.id g (update_agent a.id f rows) e ip (λ c. refl) (λ c. refl) in
      ground (arith, h, cleared, refreshed, both)

  authenticate-Is :
      (hash_secret : String → String) (w : AuthWorld) (rows : List Agent) (hello : Hello)
      (source_ip : String)
      → Is rows
      → Is (authenticate hash_secret w rows hello source_ip).0
  unfolding authenticate
  authenticate-Is hash_secret w rows hello source_ip h =
      let a = self_reported hello source_ip in
      elim (Option-cases (credential_row hash_secret w rows hello)) [
        | inl n ↦
            rw (n, authenticate)
              (elim (by_enrollment_key-rows w rows hello source_ip) [
                | inl k ↦ rw k h
                | inr k ↦ rw k (upsert_pending_agent-Is w.upsert rows a w.new_id w.now h)
              ])
        | inr (x, n) ↦ rw (n, authenticate) (by_credential-Is w rows hello x h)
      ]

  on_agent-Is :
      (allowed : AgentStatus → Bool) (write : Site → Site) (s : Site) (r : Request)
      → Is s.agents
      → Is (write s).agents
      → Is (on_agent allowed write s r).0.agents
  on_agent-Is allowed write s r h k = elim (on_agent-cases allowed write s r) [
    | inl (x, y) ↦ rw x h
    | inr (a, n, p, x) ↦ rw x k
  ]

-- Anything but a rejection of the agent.
abbrev pub spares : String → Deed → Bool
spares id (rejects r) = not (str_eq r.agent_id id)
spares id _ = true

module _ (fr : Frames) (e ip id : String) where
  act-Is :
      (s : Site) (d : Deed)
      → spares id d ≡ true
      → Is e ip id s.agents
      → Is e ip id (act fr s d).0.agents
  unfolding act approve_request re_approve_request reject_request revoke_request delete_request
      rename_request notify_request approve_agent revoke_agent soft_delete_agent set_agent_name
      set_agent_offline_notify
  act-Is s (approves r) t h =
      let f = approved_with (fr.hash_secret r.credential) r.credential r.now in
      on_agent-Is e ip id is_pending (grant fr r) s r h
        (update-agent_of r.agent_id f s.agents e ip (λ c. refl) (λ c. refl) ∙ h)
  act-Is s (re_approves r) t h =
      let f = approved_with (fr.hash_secret r.credential) r.credential r.now in
      on_agent-Is e ip id is_revoked (grant fr r) s r h
        (update-agent_of r.agent_id f s.agents e ip (λ c. refl) (λ c. refl) ∙ h)
  act-Is s (rejects r) t h =
      on_agent-Is e ip id _ _ s r h
        (delete-agent_of s.agents r.agent_id e ip id (ground (arith, t)) h)
  act-Is s (revokes r) t h = on_agent-Is e ip id is_approved (revoking r) s r h (
      update-agent_of r.agent_id (barred_as revoked r.now) s.agents e ip (λ c. refl) (λ c. refl)
      ∙ h)
  act-Is s (deletes r) t h = on_agent-Is e ip id _ _ s r h (
      update-agent_of r.agent_id (barred_as deleted r.now) s.agents e ip (λ c. refl) (λ c. refl)
      ∙ h)
  act-Is s (renames r name runes) t h =
      on_agent-Is e ip id _ _ s r h
        (update-agent_of r.agent_id _ s.agents e ip (λ c. refl) (λ c. refl) ∙ h)
  act-Is s (notifies r on) t h =
      on_agent-Is e ip id _ _ s r h
        (update-agent_of r.agent_id _ s.agents e ip (λ c. refl) (λ c. refl) ∙ h)
  act-Is s (opens w hello source_ip key) t h =
      rw (serve-agents fr w s hello source_ip key)
        (authenticate-Is e ip id fr.hash_secret w s.agents hello source_ip h)

  -- Let a machine, known by its enroll name and its address, be an agent. After any sequence of
  -- openings of sessions and of the operator's requests, none of which asks to reject that agent,
  -- it is still that agent: neither a change of its display name, nor a revocation, nor a deletion
  -- makes another agent of it.
  pub acts-Is :
      (ds : List Deed) (s : Site)
      → All (λ d. spares id d ≡ true) ds
      → Is e ip id s.agents
      → Is e ip id (acts fr s ds).agents
  unfolding acts
  acts-Is [] s t h = h
  acts-Is (d ∷ ds) s (t, ts) h = acts-Is ds (act fr s d).0 ts (act-Is s d t h)
