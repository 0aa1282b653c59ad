-- ===== src/Site/Standing.antt =====
-- Sequences of the operator's requests (dashboard/internal/api/agents.go) and of the openings of
-- sessions (dashboard/internal/hub/session.go).
use uptime_mesh.Prelude.{
  ℕ, ◌≡◌, refl, sym, ap, ◌∙◌, Bool, true, false, not, ◌&&◌, List, [], ◌∷◌, some, String, str_eq,
  eq_iff, arith, if◌then◌else◌, Option-cases, Bool-cases, ◌⊎◌, inl, inr,
}
use uptime_mesh.Store.Agents.{
  Agent, AgentStatus, revoked, deleted, is_approved, update_agent, find_agent_by_id, approve_agent,
  revoke_agent, soft_delete_agent, delete_agent, set_agent_name, set_agent_offline_notify,
  approved_with, barred_as,
}
use uptime_mesh.Store.Agents.Identity.{
  DistinctIds, find-update_agent, find-delete_agent, update_agent-DistinctIds,
  delete_agent-DistinctIds,
}
use uptime_mesh.Hub.Session.{Hello, AuthWorld, authenticate}
use uptime_mesh.Site.{
  Site, Request, Response, done, Frames, grant, on_agent, is_pending, is_revoked, approve_request,
  re_approve_request, reject_request, revoke_request, delete_request, rename_request,
  notify_request, serve,
}
use uptime_mesh.Site.Admission.{
  status_at, may_connect, allows, Same, update-Same, authenticate-Keeps, Moves-allows,
}
use uptime_mesh.Site.Answered.{is_barred, authenticate-Fits}

-- One request, or one opening of a session.
pub data Deed : Type 0 where
  approves re_approves rejects revokes deletes : Request → Deed
  renames : Request → String → ℕ → Deed
  notifies : Request → Bool → Deed
  opens : AuthWorld → Hello → String → String → Deed

module _ (fr : Frames) where
  -- The site, and the answer of a request.
  unfoldable pub act : Site → Deed → Site × Response
  act s (approves r) = approve_request fr s r
  act s (re_approves r) = re_approve_request fr s r
  act s (rejects r) = reject_request s r
  act s (revokes r) = revoke_request s r
  act s (deletes r) = delete_request s r
  act s (renames r name runes) = rename_request s r name runes
  act s (notifies r on) = notify_request s r on
  act s (opens w hello source_ip key) = (serve fr w s hello source_ip key, done)

  unfoldable pub acts : Site → List Deed → Site
  acts s [] = s
  acts s (d ∷ ds) = acts (act s d).0 ds

abbrev pub is_done : Response → Bool
is_done done = true
is_done _ = false

-- What the operator has decided of an agent: `b`, unless the request was carried out and decides.
abbrev pub decided : String → Request → Response → Bool → Bool → Bool
decided id r response verdict b = if is_done response && str_eq r.agent_id id then verdict else b

abbrev pub decision : String → Deed → Response → Bool → Bool
decision id (approves r) response b = decided id r response true b
decision id (re_approves r) response b = decided id r response true b
decision id (rejects r) response b = decided id r response false b
decision id (revokes r) response b = decided id r response false b
decision id (deletes r) response b = decided id r response false b
decision id _ response b = b

module _ (fr : Frames) where
  -- The last decision on an agent in a sequence.
  unfoldable pub last_decision : String → Site → List Deed → Bool → Bool
  last_decision id s [] b = b
  last_decision id s (d ∷ ds) b =
      last_decision id (act fr s d).0 ds (decision id d (act fr s d).1 b)

-- What a request that is carried out makes of the rows.
Decides : List Agent → List Agent → String → Bool → Type 0
Decides rows rows' id verdict =
    DistinctIds rows'
    × ((j : String) → may_connect rows' j ≡ (if str_eq id j then verdict else may_connect rows j))

update-Decides :
    (id : String) (f : Agent → Agent) (rows : List Agent) (verdict : Bool) (a : Agent)
    → DistinctIds rows
    → ((b : Agent) → (f b).id ≡ b.id)
    → ((b : Agent) → is_approved (f b).status ≡ verdict)
    → find_agent_by_id rows id ≡ some a
    → Decides rows (update_agent id f rows) id verdict
unfolding Decides
update-Decides id f rows verdict a d h k e = (
  update_agent-DistinctIds id f rows h d,
  λ j. ground (arith, find-update_agent id j f rows h, k a, e, eq_iff id j),
)

delete-Decides :
    (id : String) (rows : List Agent)
    → DistinctIds rows
    → Decides rows (delete_agent rows id) id false
unfolding Decides
delete-Decides id rows d = (
  delete_agent-DistinctIds id rows d,
  λ j. ground (arith, find-delete_agent id j rows, eq_iff id j),
)

-- A request is refused and changes nothing, or is carried out on a row that is there.
pub on_agent-cases :
    (allowed : AgentStatus → Bool) (write : Site → Site) (s : Site) (r : Request)
    → ((on_agent allowed write s r).0 ≡ s × is_done (on_agent allowed write s r).1 ≡ false)
      ⊎ ((a : Agent) × (find_agent_by_id s.agents r.agent_id ≡ some a)
          × (allowed a.status ≡ true)
          × (on_agent allowed write s r ≡ (write s, done)))
unfolding on_agent
on_agent-cases allowed write s r = elim (Option-cases (find_agent_by_id s.agents r.agent_id)) [
  | inl n ↦ inl (ground arith)
  | inr (a, n) ↦ elim (Bool-cases (not r.find_fails && (allowed a.status && not r.write_fails))) [
    | inl e ↦ inr (a, n, ground arith, ground arith)
    | inr e ↦ inl (ground arith)
  ]
]

-- The rows after a step, against those before, where the step's answer is `response`.
abbrev Follows : List Agent → List Agent → (String → Bool → Bool) → Type 0
Follows rows rows' change =
    DistinctIds rows' × ((j : String) → may_connect rows' j ≡ change j (may_connect rows j))

Same-Follows : (rows rows' : List Agent) → Same rows rows' → Follows rows rows' (λ j b. b)
Same-Follows rows rows' (d, k) = (d, λ j. ap allows (k j))

on_agent-Decides :
    (allowed : AgentStatus → Bool) (write : Site → Site) (s : Site) (r : Request) (verdict : Bool)
    → DistinctIds s.agents
    → ((a : Agent)
        → find_agent_by_id s.agents r.agent_id ≡ some a
        → Decides s.agents (write s).agents r.agent_id verdict)
    → let t = on_agent allowed write s r in
      Follows s.agents t.0.agents (λ j. decided j r t.1 verdict)
unfolding Decides
on_agent-Decides allowed write s r verdict d h = elim (on_agent-cases allowed write s r) [
  | inl (e, f) ↦ (rw e d, λ j. ground (arith, e, f))
  | inr (a, n, p, e) ↦ let k = h a n in (rw e (k.0), λ j. ground (arith, e, k.1 j))
]

on_agent-Same :
    (allowed : AgentStatus → Bool) (write : Site → Site) (s : Site) (r : Request)
    → DistinctIds s.agents
    → Same s.agents (write s).agents
    → Same s.agents (on_agent allowed write s r).0.agents
on_agent-Same allowed write s r d k = elim (on_agent-cases allowed write s r) [
  | inl (e, f) ↦ rw e (d, λ j. refl)
  | inr (a, n, p, e) ↦ rw e k
]

module _ (fr : Frames) where
  pub serve-agents :
      (w : AuthWorld) (s : Site) (hello : Hello) (source_ip key : String)
      → (serve fr w s hello source_ip key).agents
        ≡ (authenticate fr.hash_secret w s.agents hello source_ip).0
  unfolding serve
  serve-agents w s hello source_ip key = ground arith

  pub act-Follows :
      (s : Site) (d : Deed)
      → DistinctIds s.agents
      → Follows s.agents (act fr s d).0.agents (λ j. decision j d (act fr s d).1)
  unfolding act approve_request re_approve_request reject_request revoke_request delete_request
      rename_request notify_request approve_agent revoke_agent soft_delete_agent set_agent_name
      set_agent_offline_notify
  act-Follows s (approves r) d = on_agent-Decides is_pending (grant fr r) s r true d (λ a n.
      update-Decides r.agent_id (approved_with (fr.hash_secret r.credential) r.credential r.now)
        s.agents true a d (λ b. refl) (λ b. refl) n)
  act-Follows s (re_approves r) d = on_agent-Decides is_revoked (grant fr r) s r true d (λ a n.
      update-Decides r.agent_id (approved_with (fr.hash_secret r.credential) r.credential r.now)
        s.agents true a d (λ b. refl) (λ b. refl) n)
  act-Follows s (rejects r) d =
      on_agent-Decides is_pending _ s r false d (λ a n. delete-Decides r.agent_id s.agents d)
  act-Follows s (revokes r) d = on_agent-Decides is_approved _ s r false d (λ a n.
      update-Decides r.agent_id (barred_as revoked r.now) s.agents false a d (λ b. refl) (λ b. refl)
        n)
  act-Follows s (deletes r) d = on_agent-Decides is_revoked _ s r false d (λ a n.
      update-Decides r.agent_id (barred_as deleted r.now) s.agents false a d (λ b. refl) (λ b. refl)
        n)
  act-Follows s (renames r name runes) d =
      Same-Follows _ _
        (on_agent-Same _ _ s r d (update-Same r.agent_id _ s.agents d (λ b. refl) (λ b. refl)))
  act-Follows s (notifies r on) d =
      Same-Follows _ _
        (on_agent-Same _ _ s r d (update-Same r.agent_id _ s.agents d (λ b. refl) (λ b. refl)))
  act-Follows s (opens w hello source_ip key) d =
      let k = authenticate-Keeps fr.hash_secret w s.agents hello source_ip d in
      rw (serve-agents w s hello source_ip key) (k.0, λ j. Moves-allows _ _ (k.1 j))

  pub acts-DistinctIds :
      (ds : List Deed) (s : Site) → DistinctIds s.agents → DistinctIds (acts fr s ds).agents
  unfolding acts
  acts-DistinctIds [] s d = d
  acts-DistinctIds (e ∷ ds) s d = acts-DistinctIds ds (act fr s e).0 (act-Follows s e d).0

  -- From rows with distinct ids, after any sequence of the operator's requests and of openings of
  -- sessions: the row of an agent is approved exactly if the last of its requests that was carried
  -- out and decides (approve, approve again, reject, revoke, delete) is an approval, or if there is
  -- none and the row was approved before. No session, whatever it presents, changes that.
  pub acts-last_decision :
      (ds : List Deed) (s : Site) (id : String)
      → DistinctIds s.agents
      → may_connect (acts fr s ds).agents id ≡ last_decision fr id s ds (may_connect s.agents id)
  unfolding acts last_decision
  acts-last_decision [] s id d = refl
  acts-last_decision (e ∷ ds) s id d =
      let k = act-Follows s e d in
      acts-last_decision ds (act fr s e).0 id k.0
      ∙ (λ i. last_decision fr id (act fr s e).0 ds (k.1 id i))

  -- From rows with distinct ids, after any sequence of the operator's requests and of openings of
  -- sessions: where an authentication answers an agent, the status that it answers is approved
  -- exactly if the last decision on that agent, in the sense of the theorem above, is an approval,
  -- and its row is neither revoked nor deleted.
  pub authenticate-last_decision :
      (ds : List Deed) (s : Site) (w : AuthWorld) (hello : Hello) (source_ip : String) (a : Agent)
      (st : AgentStatus)
      → DistinctIds s.agents
      → let t = authenticate fr.hash_secret w (acts fr s ds).agents hello source_ip in
        t.1 ≡ some (a, st)
        → (is_approved st ≡ last_decision fr a.id s ds (may_connect s.agents a.id))
          × (is_barred (status_at t.0 a.id) ≡ false)
  authenticate-last_decision ds s w hello source_ip a st d e =
      let rows = (acts fr s ds).agents in
      let k = acts-DistinctIds ds s d in
      let fits = authenticate-Fits fr.hash_secret w rows hello source_ip k a st e in
      let keeps = authenticate-Keeps fr.hash_secret w rows hello source_ip k in
      (sym fits.1 ∙ Moves-allows _ _ (keeps.1 a.id) ∙ acts-last_decision ds s a.id d, fits.0)
