-- ===== src/Site/Credentials.antt =====
-- The credentials that wait for their agents (`cred_plain` of dashboard/internal/store/agents.go), and
-- what a session does with them (dashboard/internal/hub/session.go).
use uptime_mesh.Prelude.{
  ℕ, ◌≡◌, refl, ap, ◌∙◌, Bool, true, ◌&&◌, ◌||◌, List, [], ◌∷◌, ◌++◌, some, String, str_eq, eq_iff,
  arith, is_some, Option-cases, Bool-cases, inl, inr,
}
use uptime_mesh.Store.Agents.{
  Agent, AgentStatus, is_approved, AgentFaults, update_agent, first_agent, find_agent_by_id,
  find_agent_by_identity, insert_agent, completed, upsert_existing, upsert_new,
  upsert_pending_agent, apply_agent_refresh, revive, clear_cred_plain, refresh_agent_hello,
  delete_agent,
}
use uptime_mesh.Store.Agents.Identity.{find-update_agent, find-delete_agent, find-append}
use uptime_mesh.Hub.Session.{
  Hello, AuthWorld, authenticate, by_credential, credential_row, self_reported, refresh_from_hello,
  merged,
}
use uptime_mesh.Site.Admission.{by_enrollment_key-rows}

-- A condition on the row of every id.
abbrev pub Rows : (Agent → Bool) → List Agent → Type 0
Rows p rows = (id : String) (a : Agent) → find_agent_by_id rows id ≡ some a → p a ≡ true

module _ (p : Agent → Bool) where
  pub update-Rows :
      (id : String) (f : Agent → Agent) (rows : List Agent)
      → ((a : Agent) → (f a).id ≡ a.id)
      → ((a : Agent) → p a ≡ true → p (f a) ≡ true)
      → Rows p rows
      → Rows p (update_agent id f rows)
  update-Rows id f rows h k all j a e = elim (Option-cases (find_agent_by_id rows j)) [
    | inl n ↦ absurd (ground (arith, find-update_agent id j f rows h))
    | inr (b, n) ↦
        let q = find-update_agent id j f rows h in
        elim (Bool-cases (str_eq id j)) [
          | inl i ↦ let same : a ≡ f b = ground (arith, q) in ap p same ∙ k b (all j b n)
          | inr i ↦ all j a (ground (arith, q))
        ]
  ]

  append-Rows :
      (rows : List Agent) (c : Agent) → p c ≡ true → Rows p rows → Rows p (rows ++ (c ∷ []))
  append-Rows rows c t all j a e = elim (Option-cases (find_agent_by_id rows j)) [
    | inl n ↦ elim (Bool-cases (str_eq c.id j)) [
      | inl i ↦ let same : a ≡ c = ground (arith, find-append j rows c) in ap p same ∙ t
      | inr i ↦ absurd (ground (arith, find-append j rows c))
    ]
    | inr (b, n) ↦ all j a (ground (arith, find-append j rows c))
  ]

  pub delete-Rows : (id : String) (rows : List Agent) → Rows p rows → Rows p (delete_agent rows id)
  delete-Rows id rows all j a e = all j a (ground (arith, find-delete_agent id j rows))

module _ (hash_secret : String → String) where
  -- A credential waits only in an approved row, beside its own hash.
  abbrev pub is_deliverable : Agent → Bool
  is_deliverable a =
      str_eq a.cred_plain ""
      || (str_eq a.credential_hash (hash_secret a.cred_plain) && is_approved a.status)

  abbrev pub Deliverable : List Agent → Type 0
  Deliverable rows = Rows is_deliverable rows

  upsert_existing-Deliverable :
      (fails : Bool) (rows : List Agent) (a : Agent) (now : ℕ) (existing : Agent) (st : AgentStatus)
      → Deliverable rows
      → Deliverable (upsert_existing fails rows a now existing st).0
  unfolding upsert_existing
  upsert_existing-Deliverable fails rows a now existing st all j b e =
      let refreshed =
        update-Rows is_deliverable existing.id (apply_agent_refresh a now) rows (λ c. refl)
          (λ c h. h) all in
      let revived =
        update-Rows is_deliverable existing.id (revive a now) rows (λ c. refl) (λ c h. refl) all in
      ground (arith, all j b, refreshed j b, revived j b)

  upsert_new-Deliverable :
      (fails : Bool) (rows : List Agent) (a : Agent) (new_id : String) (now : ℕ)
      → a.cred_plain ≡ ""
      → Deliverable rows
      → Deliverable (upsert_new fails rows a new_id now).0
  unfolding upsert_new insert_agent
  upsert_new-Deliverable fails rows a new_id now p all j b e =
      let c = completed (record a { status = AgentStatus.pending }) new_id now in
      let added =
        append-Rows is_deliverable rows c (ground (arith, p, eq_iff a.cred_plain "")) all in
      ground (arith, all j b, added j b)

  upsert_pending_agent-Deliverable :
      (faults : AgentFaults) (rows : List Agent) (a : Agent) (new_id : String) (now : ℕ)
      → a.cred_plain ≡ ""
      → Deliverable rows
      → Deliverable (upsert_pending_agent faults rows a new_id now).0
  unfolding upsert_pending_agent
  upsert_pending_agent-Deliverable faults rows a new_id now p all j b e =
      elim (Option-cases (find_agent_by_identity rows a.name a.source_ip)) [
        | inl n ↦
            ground (
              arith,
              all j b,
              upsert_new-Deliverable faults.write_fails rows a new_id now p all j b,
            )
        | inr (x, n) ↦ ground (
          arith,
          all j b,
          upsert_existing-Deliverable faults.write_fails rows a now x x.status all j b,
        )
      ]

  by_credential-Deliverable :
      (w : AuthWorld) (rows : List Agent) (hello : Hello) (a : Agent)
      → Deliverable rows
      → Deliverable (by_credential w rows hello a).0
  unfolding by_credential refresh_from_hello refresh_agent_hello clear_cred_plain
  by_credential-Deliverable w rows hello a all j b e =
      let f : Agent → Agent = λ c. record c { cred_plain = "" } in
      let g = apply_agent_refresh (merged hello a) w.now in
      let cleared = update-Rows is_deliverable a.id f rows (λ c. refl) (λ c h. refl) all in
      let refreshed = update-Rows is_deliverable a.id g rows (λ c. refl) (λ c h. h) all in
      let both =
        update-Rows is_deliverable a.id g (update_agent a.id f rows) (λ c. refl) (λ c h. h)
          cleared in
      ground (arith, all j b, cleared j b, refreshed j b, both j b)

  pub authenticate-Deliverable :
      (w : AuthWorld) (rows : List Agent) (hello : Hello) (source_ip : String)
      → Deliverable rows
      → Deliverable (authenticate hash_secret w rows hello source_ip).0
  unfolding authenticate
  authenticate-Deliverable w rows hello source_ip all =
      let a = self_reported hello source_ip in
      elim (Option-cases (credential_row hash_secret w rows hello)) [
        | inl n ↦
            rw (n, authenticate)
              (elim (by_enrollment_key-rows w rows hello source_ip) [
                | inl e ↦ rw e all
                | inr e ↦
                    rw e (upsert_pending_agent-Deliverable w.upsert rows a w.new_id w.now refl all)
              ])
        | inr (x, n) ↦ rw (n, authenticate) (by_credential-Deliverable w rows hello x all)
      ]

  pub first_agent-some :
      (p : Agent → Bool) (rows : List Agent) (id : String) (a : Agent)
      → find_agent_by_id rows id ≡ some a
      → p a ≡ true
      → is_some (first_agent p rows) ≡ true
  unfolding find_agent_by_id
  first_agent-some p [] id a e h = cc
  first_agent-some p (b ∷ rows) id a e h = elim (Bool-cases (str_eq b.id id)) [
    | inl i ↦ let same : b ≡ a = ground arith in ground (arith, ap p same, h)
    | inr i ↦ ground (arith, first_agent-some p rows id a)
  ]
