-- ===== src/Site/Barred.antt =====
-- The open connections of agents that the operator has revoked or deleted
-- (dashboard/internal/api/agents.go, dashboard/internal/hub/session.go).
use uptime_mesh.Prelude.{
  ℕ, ◌/◌, ◌≡◌, refl, Bool, List, [], ◌∷◌, some, String, eq_iff, arith, inl, inr,
}
use uptime_mesh.Store.Agents.{
  Agent, AgentStatus, revoked, deleted, is_approved, update_agent, find_agent_by_id, approve_agent,
  revoke_agent, soft_delete_agent, delete_agent, set_agent_name, set_agent_offline_notify,
  approved_with, barred_as,
}
use uptime_mesh.Store.Agents.Identity.{DistinctIds, find-update_agent, find-delete_agent}
use uptime_mesh.Hub.{Hub, force_disconnect, rename_conn}
use uptime_mesh.Hub.Registry.{Use, step-OneLive, step}
use uptime_mesh.Hub.Live.{rename_conn-AllLive, force_disconnect-AllLive}
use uptime_mesh.Site.{
  Site, Request, Frames, grant, on_agent, is_pending, is_revoked, approve_request,
  re_approve_request, reject_request, revoke_request, delete_request, rename_request,
  notify_request,
}
use uptime_mesh.Site.Admission.{Same, update-Same}
use uptime_mesh.Site.Opening.{
  is_welcome, Sound, Wider, Sound-Wider, push_credential-Sound, serve-Sound,
}
use uptime_mesh.Site.Standing.{
  Deed, approves, re_approves, rejects, revokes, deletes, renames, notifies, opens, act, acts,
  on_agent-cases, act-Follows,
}

on_agent-Sound :
    (allowed : AgentStatus → Bool) (write : Site → Site) (s : Site) (r : Request)
    → Sound s.agents s.hub
    → ((a : Agent)
        → find_agent_by_id s.agents r.agent_id ≡ some a
        → Sound (write s).agents (write s).hub)
    → let t = (on_agent allowed write s r).0 in Sound t.agents t.hub
on_agent-Sound allowed write s r sound h = elim (on_agent-cases allowed write s r) [
  | inl (e, f) ↦ rw e sound
  | inr (a, n, p, e) ↦ rw e (h a n)
]

grant-Wider :
    (rows : List Agent) (id hash credential : String) (now : ℕ) (a : Agent)
    → find_agent_by_id rows id ≡ some a
    → Wider rows (update_agent id (approved_with hash credential now) rows)
unfolding Wider
grant-Wider rows id hash credential now a n j w = ground (
  arith,
  find-update_agent id j (approved_with hash credential now) rows (λ b. refl),
  n,
  eq_iff id j,
)

delete-Wider : (rows : List Agent) (id : String) → Wider rows (delete_agent rows id)
unfolding Wider
delete-Wider rows id j w = ground (arith, find-delete_agent id j rows, eq_iff id j)

Same-Wider : (rows rows' : List Agent) → Same rows rows' → Wider rows rows'
unfolding Wider
Same-Wider rows rows' (d, k) j w = ground (arith, k j)

-- The agent is barred, and its connection is closed.
bar-Sound :
    (rows : List Agent) (hub : Hub) (id : String) (status : AgentStatus) (now : ℕ)
    → Sound rows hub
    → Sound (update_agent id (barred_as status now) rows) (force_disconnect hub id)
unfolding step
bar-Sound rows hub id status now (one, live) = (
  step-OneLive hub (Use.disconnects id) one,
  λ j x e d. ground (
    arith,
    force_disconnect-AllLive (is_welcome rows) hub id one live j x e d,
    find-update_agent id x.agent_id (barred_as status now) rows (λ b. refl),
  ),
)

module _ (fr : Frames) where
  grant-Sound :
      (s : Site) (r : Request) (a : Agent)
      → find_agent_by_id s.agents r.agent_id ≡ some a
      → Sound s.agents s.hub
      → Sound (grant fr r s).agents (grant fr r s).hub
  unfolding approve_agent
  grant-Sound s r a n sound =
      let rows = approve_agent fr.hash_secret s.agents r.agent_id r.credential r.now in
      push_credential-Sound fr rows s.hub r.agent_id r.credential (
        Sound-Wider s.agents rows s.hub
          (grant-Wider s.agents r.agent_id (fr.hash_secret r.credential) r.credential r.now a n)
          sound)

  act-Sound :
      (s : Site) (e : Deed)
      → DistinctIds s.agents
      → Sound s.agents s.hub
      → let t = (act fr s e).0 in Sound t.agents t.hub
  unfolding act approve_request re_approve_request reject_request revoke_request delete_request
      rename_request notify_request revoke_agent soft_delete_agent set_agent_name
      set_agent_offline_notify step
  act-Sound s (approves r) d sound =
      on_agent-Sound is_pending (grant fr r) s r sound (λ a n. grant-Sound s r a n sound)
  act-Sound s (re_approves r) d sound =
      on_agent-Sound is_revoked (grant fr r) s r sound (λ a n. grant-Sound s r a n sound)
  act-Sound s (rejects r) d sound =
      on_agent-Sound is_pending _ s r sound
        (λ a n. Sound-Wider s.agents _ s.hub (delete-Wider s.agents r.agent_id) sound)
  act-Sound s (revokes r) d sound =
      on_agent-Sound is_approved _ s r sound
        (λ a n. bar-Sound s.agents s.hub r.agent_id revoked r.now sound)
  act-Sound s (deletes r) d sound =
      on_agent-Sound is_revoked _ s r sound
        (λ a n. bar-Sound s.agents s.hub r.agent_id deleted r.now sound)
  act-Sound s (renames r name runes) d (one, live) =
      let f : Agent → Agent = λ b. record b { name = name; updated_at = r.now / 1_000_000_000 } in
      let wider =
        Same-Wider s.agents _ (update-Same r.agent_id f s.agents d (λ b. refl) (λ b. refl)) in
      on_agent-Sound _ _ s r (one, live)
        (λ a n. Sound-Wider s.agents _ (rename_conn s.hub r.agent_id name) wider (
          step-OneLive s.hub (Use.renames r.agent_id name) one,
          rename_conn-AllLive (is_welcome s.agents) s.hub r.agent_id name live,
        ))
  act-Sound s (notifies r on) d sound =
      let f : Agent → Agent =
        λ b. record b { offline_notify = on; updated_at = r.now / 1_000_000_000 } in
      on_agent-Sound _ _ s r sound (λ a n.
        Sound-Wider s.agents _ s.hub
          (Same-Wider s.agents _ (update-Same r.agent_id f s.agents d (λ b. refl) (λ b. refl)))
          sound)
  act-Sound s (opens w hello source_ip key) d sound = serve-Sound fr w s hello source_ip key d sound

  -- Let the ids of the rows differ, an agent have at most one open connection and a revoked or
  -- deleted one none. So it is then after any sequence of the operator's requests and of openings
  -- of sessions, each of which is one step: whoever is revoked is cut off, and stays cut off until
  -- it is approved again or, once deleted, comes back as pending.
  pub acts-Sound :
      (ds : List Deed) (s : Site)
      → DistinctIds s.agents
      → Sound s.agents s.hub
      → let t = acts fr s ds in Sound t.agents t.hub
  unfolding acts
  acts-Sound [] s d sound = sound
  acts-Sound (e ∷ ds) s d sound =
      acts-Sound ds (act fr s e).0 (act-Follows fr s e d).0 (act-Sound s e d sound)
