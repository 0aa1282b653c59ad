-- ===== src/Site/Answered.antt =====
-- The answer of an authentication (dashboard/internal/hub/session.go) against the rows after it.
use uptime_mesh.Prelude.{
  ℕ, ◌≡◌, refl, Bool, true, false, ◌&&◌, List, [], ◌∷◌, ◌++◌, Option, some, String, str_eq, eq_iff,
  arith, if◌then◌else◌, Option-cases, Bool-cases, inl, inr,
}
use uptime_mesh.Store.Agents.{
  Agent, AgentStatus, pending, approved, revoked, deleted, other, AgentFaults, Upserted, answers,
  is_approved, update_agent, first_agent, has_identity, is_taken, completed, find_agent_by_id,
  find_agent_by_identity, find_agent_by_credential_hash, insert_agent, upsert_existing, upsert_new,
  upsert_pending_agent, apply_agent_refresh, revive, clear_cred_plain,
}
use uptime_mesh.Store.Agents.Identity.{
  DistinctIds, find-update_agent, find-append, find-first_agent, find-absent, has_id-is_taken,
  first_agent-passes,
}
use uptime_mesh.Hub.Session.{
  Hello, AuthWorld, Admitted, authenticate, by_credential, by_enrollment_key, credential_row,
  self_reported, refresh_from_hello,
}
use uptime_mesh.Site.Admission.{status_at, allows, by_credential-Same}

abbrev pub is_barred : Option AgentStatus → Bool
is_barred (some AgentStatus.revoked) = true
is_barred (some AgentStatus.deleted) = true
is_barred _ = false

-- The row of an agent that is answered is neither revoked nor deleted, and it is approved exactly
-- if the answer is.
abbrev pub Fits : List Agent → Agent → AgentStatus → Type 0
Fits rows a st =
    (is_barred (status_at rows a.id) ≡ false) × (allows (status_at rows a.id) ≡ is_approved st)

abbrev FitsAnswer : Admitted → Type 0
FitsAnswer t = (a : Agent) (st : AgentStatus) → t.1 ≡ some (a, st) → Fits t.0 a st

abbrev FitsUpserted : List Agent × Upserted → Type 0
FitsUpserted t = (a : Agent) (st : AgentStatus) → t.1 ≡ answers a st → Fits t.0 a st

update-Fits :
    (f : Agent → Agent) (rows : List Agent) (existing b : Agent) (t : AgentStatus)
    → ((a : Agent) → (f a).id ≡ a.id)
    → find_agent_by_id rows existing.id ≡ some existing
    → b.id ≡ existing.id
    → is_barred (some (f existing).status) ≡ false
    → is_approved (f existing).status ≡ is_approved t
    → Fits (update_agent existing.id f rows) b t
update-Fits f rows existing b t h e i p q =
    let k = find-update_agent existing.id existing.id f rows h in
    (
      ground (arith, k, e, i, p, eq_iff existing.id existing.id),
      ground (arith, k, e, i, q, eq_iff existing.id existing.id),
    )

upsert_existing-Fits :
    (fails : Bool) (rows : List Agent) (a : Agent) (now : ℕ) (existing : Agent) (st : AgentStatus)
    → find_agent_by_id rows existing.id ≡ some existing
    → existing.status ≡ st
    → FitsUpserted (upsert_existing fails rows a now existing st)
unfolding upsert_existing
upsert_existing-Fits fails rows a now existing revoked f s b t e = absurd (ground arith)
upsert_existing-Fits true rows a now existing approved f s b t e = absurd (ground arith)
upsert_existing-Fits false rows a now existing approved f s b t e =
    update-Fits (apply_agent_refresh a now) rows existing b t (λ c. refl) f (ground arith)
      (ground arith) (ground arith)
upsert_existing-Fits true rows a now existing deleted f s b t e = absurd (ground arith)
upsert_existing-Fits false rows a now existing deleted f s b t e =
    update-Fits (revive a now) rows existing b t (λ c. refl) f (ground arith) (ground arith)
      (ground arith)
upsert_existing-Fits true rows a now existing pending f s b t e = absurd (ground arith)
upsert_existing-Fits false rows a now existing pending f s b t e =
    update-Fits (apply_agent_refresh a now) rows existing b t (λ c. refl) f (ground arith)
      (ground arith) (ground arith)
upsert_existing-Fits true rows a now existing (other x) f s b t e = absurd (ground arith)
upsert_existing-Fits false rows a now existing (other x) f s b t e =
    update-Fits (apply_agent_refresh a now) rows existing b t (λ c. refl) f (ground arith)
      (ground arith) (ground arith)

insert_agent-Fits :
    (fails : Bool) (rows : List Agent) (a : Agent) (new_id : String) (now : ℕ) (next : List Agent)
    (row : Agent)
    → a.status ≡ AgentStatus.pending
    → insert_agent fails rows a new_id now ≡ some (next, row)
    → Fits next row AgentStatus.pending
unfolding insert_agent
insert_agent-Fits fails rows a new_id now next row p e =
    let c = completed a new_id now in
    elim (Bool-cases (is_taken rows c)) [
      | inl t ↦ absurd (ground arith)
      | inr t ↦
          let same : next ≡ rows ++ (c ∷ []) = ground arith in
          let this : row ≡ c = ground arith in
          let k = find-append c.id rows c in
          let n = find-absent c.id rows (has_id-is_taken rows c t) in
          rw (same, this)
            (ground (arith, k, n, p, eq_iff c.id c.id), ground (arith, k, n, p, eq_iff c.id c.id))
    ]

upsert_new-Fits :
    (fails : Bool) (rows : List Agent) (a : Agent) (new_id : String) (now : ℕ)
    → FitsUpserted (upsert_new fails rows a new_id now)
unfolding upsert_new
upsert_new-Fits fails rows a new_id now b t e =
    let c : Agent = record a { status = AgentStatus.pending } in
    elim (Option-cases (insert_agent fails rows c new_id now)) [
      | inl n ↦ absurd (ground arith)
      | inr ((next, row), n) ↦
          let k = insert_agent-Fits fails rows c new_id now next row refl n in
          (ground (arith, k.0), ground (arith, k.1))
    ]

upsert_pending_agent-Fits :
    (faults : AgentFaults) (rows : List Agent) (a : Agent) (new_id : String) (now : ℕ)
    → DistinctIds rows
    → FitsUpserted (upsert_pending_agent faults rows a new_id now)
unfolding upsert_pending_agent find_agent_by_identity
upsert_pending_agent-Fits faults rows a new_id now d b t e =
    let p = has_identity a.name a.source_ip in
    let none_there = upsert_new-Fits faults.write_fails rows a new_id now b t in
    elim (Option-cases (first_agent p rows)) [
      | inl n ↦ (ground (arith, none_there), ground (arith, none_there))
      | inr (x, n) ↦
          let k =
            upsert_existing-Fits faults.write_fails rows a now x x.status
              (find-first_agent p rows x d n) refl b t in
          (ground (arith, k), ground (arith, k))
    ]

by_enrollment_key-Fits :
    (w : AuthWorld) (rows : List Agent) (hello : Hello) (source_ip : String)
    → DistinctIds rows
    → FitsAnswer (by_enrollment_key w rows hello source_ip)
unfolding by_enrollment_key
by_enrollment_key-Fits w rows hello source_ip d b t e =
    let u = upsert_pending_agent w.upsert rows (self_reported hello source_ip) w.new_id w.now in
    let k =
      upsert_pending_agent-Fits w.upsert rows (self_reported hello source_ip) w.new_id w.now d b
        t in
    elim (Option-cases w.key_accepted) [
      | inl n ↦ absurd (ground arith)
      | inr (ok, n) ↦ (ground (arith, k), ground (arith, k))
    ]

refresh_from_hello-id :
    (fails : Bool) (rows : List Agent) (a : Agent) (hello : Hello) (now : ℕ)
    → (refresh_from_hello fails rows a hello now).1.id ≡ a.id
unfolding refresh_from_hello
refresh_from_hello-id fails rows a hello now = ground arith

by_credential-answer :
    (w : AuthWorld) (rows : List Agent) (hello : Hello) (a b : Agent) (t : AgentStatus)
    → (by_credential w rows hello a).1 ≡ some (b, t)
    → (b.id ≡ a.id) × (t ≡ AgentStatus.approved)
unfolding by_credential
by_credential-answer w rows hello a b t e =
    let c =
      refresh_from_hello-id w.refresh_fails
        (if w.clear_fails then rows else clear_cred_plain rows a.id) a hello w.now in
    (ground (arith, c), ground arith)

by_credential-Fits :
    (w : AuthWorld) (rows : List Agent) (hello : Hello) (a : Agent)
    → DistinctIds rows
    → status_at rows a.id ≡ some AgentStatus.approved
    → FitsAnswer (by_credential w rows hello a)
by_credential-Fits w rows hello a d s b t e =
    let k = (by_credential-Same w rows hello a d).1 a.id in
    let i = by_credential-answer w rows hello a b t e in
    (ground (arith, k, s, i), ground (arith, k, s, i))

credential_row-approved :
    (hash_secret : String → String) (w : AuthWorld) (rows : List Agent) (hello : Hello) (a : Agent)
    → DistinctIds rows
    → credential_row hash_secret w rows hello ≡ some a
    → status_at rows a.id ≡ some AgentStatus.approved
unfolding credential_row find_agent_by_credential_hash
credential_row-approved hash_secret w rows hello a d e =
    let hash = hash_secret hello.credential in
    let p = λ (b : Agent). str_eq b.credential_hash hash && is_approved b.status in
    let found : first_agent p rows ≡ some a = ground arith in
    ground (arith, find-first_agent p rows a d found, first_agent-passes p rows a found)

pub authenticate-Fits :
    (hash_secret : String → String) (w : AuthWorld) (rows : List Agent) (hello : Hello)
    (source_ip : String)
    → DistinctIds rows
    → FitsAnswer (authenticate hash_secret w rows hello source_ip)
unfolding authenticate
authenticate-Fits hash_secret w rows hello source_ip d b t e =
    elim (Option-cases (credential_row hash_secret w rows hello)) [
      | inl n ↦
          let k = by_enrollment_key-Fits w rows hello source_ip d b t in
          (ground (arith, k), ground (arith, k))
      | inr (a, n) ↦
          let k =
            by_credential-Fits w rows hello a d
              (credential_row-approved hash_secret w rows hello a d n) b t in
          (ground (arith, k), ground (arith, k))
    ]
