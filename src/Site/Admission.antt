-- ===== src/Site/Admission.antt =====
-- Who may connect after an authentication (dashboard/internal/hub/session.go with
-- `UpsertPendingAgent` of dashboard/internal/store/agents.go).
use uptime_mesh.Prelude.{
  ℕ, ◌≡◌, refl, ◌∙◌, Bool, true, false, not, ◌&&◌, str_eq, List, [], ◌∷◌, ◌++◌, Option, none, some,
  String, eq_iff, arith, Option-cases, Bool-cases, ◌⊎◌, inl, inr,
}
use uptime_mesh.Store.Agents.{
  Agent, AgentStatus, pending, approved, revoked, deleted, other, AgentFaults, Upserted, answers,
  refuses, has_failed, is_approved, update_agent, first_agent, has_identity, is_taken, completed,
  find_agent_by_id, find_agent_by_identity, insert_agent, upsert_existing, upsert_new,
  upsert_pending_agent, clear_cred_plain, refresh_agent_hello, apply_agent_refresh, revive,
}
use uptime_mesh.Store.Agents.Identity.{
  DistinctIds, find-update_agent, find-append, find-first_agent, update_agent-DistinctIds,
  append-DistinctIds,
}
use uptime_mesh.Hub.Session.{
  Hello, AuthWorld, authenticate, by_credential, by_enrollment_key, credential_row, admitted_by,
  self_reported, refresh_from_hello, merged,
}

-- The status of the row of an id.
abbrev pub status_of : Option Agent → Option AgentStatus
status_of none = none
status_of (some a) = some a.status

abbrev pub status_at : List Agent → String → Option AgentStatus
status_at rows id = status_of (find_agent_by_id rows id)

abbrev pub allows : Option AgentStatus → Bool
allows none = false
allows (some st) = is_approved st

abbrev pub may_connect : List Agent → String → Bool
may_connect rows id = allows (status_at rows id)

-- An update that leaves the ids and the statuses.
abbrev pub Same : List Agent → List Agent → Type 0
Same rows rows' = DistinctIds rows' × ((j : String) → status_at rows' j ≡ status_at rows j)

pub update-Same :
    (id : String) (f : Agent → Agent) (rows : List Agent)
    → DistinctIds rows
    → ((a : Agent) → (f a).id ≡ a.id)
    → ((a : Agent) → (f a).status ≡ a.status)
    → Same rows (update_agent id f rows)
update-Same id f rows d h k = (
  update_agent-DistinctIds id f rows h d,
  λ j. elim (Option-cases (find_agent_by_id rows j)) [
    | inl n ↦ ground (arith, find-update_agent id j f rows h)
    | inr (a, n) ↦ ground (arith, find-update_agent id j f rows h, k a)
  ],
)

-- What an authentication may make of the status of a row.
pub data Moves (x y : Option AgentStatus) : Type 0 where
  stays : y ≡ x → Moves x y
  enters : x ≡ none → y ≡ some AgentStatus.pending → Moves x y
  returns : x ≡ some AgentStatus.deleted → y ≡ some AgentStatus.pending → Moves x y

abbrev pub Keeps : List Agent → List Agent → Type 0
Keeps rows rows' = DistinctIds rows' × ((j : String) → Moves (status_at rows j) (status_at rows' j))

Same-Keeps : (rows rows' : List Agent) → Same rows rows' → Keeps rows rows'
Same-Keeps rows rows' (d, k) = (d, λ j. stays (k j))

refresh_from_hello-Same :
    (fails : Bool) (rows : List Agent) (a : Agent) (hello : Hello) (now : ℕ)
    → DistinctIds rows
    → Same rows (refresh_from_hello fails rows a hello now).0
unfolding refresh_from_hello refresh_agent_hello
refresh_from_hello-Same fails rows a hello now d =
    let k =
      update-Same a.id (apply_agent_refresh (merged hello a) now) rows d (λ b. refl) (λ b. refl) in
    (ground (arith, k.0), λ j. ground (arith, k.1 j))

pub by_credential-Same :
    (w : AuthWorld) (rows : List Agent) (hello : Hello) (a : Agent)
    → DistinctIds rows
    → Same rows (by_credential w rows hello a).0
unfolding by_credential clear_cred_plain
by_credential-Same w rows hello a d =
    let f : Agent → Agent = λ b. record b { cred_plain = "" } in
    let k = update-Same a.id f rows d (λ b. refl) (λ b. refl) in
    elim (Bool-cases w.clear_fails) [
      | inl e ↦ rw e (refresh_from_hello-Same w.refresh_fails rows a hello w.now d)
      | inr e ↦ rw e (
          let l =
            refresh_from_hello-Same w.refresh_fails (update_agent a.id f rows) a hello w.now k.0 in
          (l.0, λ j. l.1 j ∙ k.1 j))
    ]

insert_agent-Keeps :
    (fails : Bool) (rows : List Agent) (a : Agent) (new_id : String) (now : ℕ) (next : List Agent)
    (row : Agent)
    → a.status ≡ AgentStatus.pending
    → DistinctIds rows
    → insert_agent fails rows a new_id now ≡ some (next, row)
    → Keeps rows next
unfolding insert_agent
insert_agent-Keeps fails rows a new_id now next row p d e =
    let c = completed a new_id now in
    elim (Bool-cases (is_taken rows c)) [
      | inl t ↦ absurd (ground arith)
      | inr t ↦
          let same : next ≡ rows ++ (c ∷ []) = ground arith in
          rw same (
            append-DistinctIds rows c t d,
            λ j. elim (Option-cases (find_agent_by_id rows j)) [
              | inl n ↦ elim (Bool-cases (str_eq c.id j)) [
                | inl k ↦ enters (ground arith) (ground (arith, find-append j rows c))
                | inr k ↦ stays (ground (arith, find-append j rows c))
              ]
              | inr (b, n) ↦ stays (ground (arith, find-append j rows c))
            ],
          )
    ]

revive-Keeps :
    (a : Agent) (now : ℕ) (rows : List Agent) (existing : Agent)
    → DistinctIds rows
    → find_agent_by_id rows existing.id ≡ some existing
    → existing.status ≡ AgentStatus.deleted
    → Keeps rows (update_agent existing.id (revive a now) rows)
revive-Keeps a now rows existing d f s = (
  update_agent-DistinctIds existing.id (revive a now) rows (λ b. refl) d,
  λ j.
      let e = find-update_agent existing.id j (revive a now) rows (λ b. refl) in
      elim (Bool-cases (str_eq existing.id j)) [
        | inl k ↦
            returns (ground (arith, f, s, eq_iff existing.id j))
              (ground (arith, f, e, eq_iff existing.id j))
        | inr k ↦ stays (ground (arith, e))
      ],
)

upsert_existing-Keeps :
    (fails : Bool) (rows : List Agent) (a : Agent) (now : ℕ) (existing : Agent) (st : AgentStatus)
    → DistinctIds rows
    → find_agent_by_id rows existing.id ≡ some existing
    → existing.status ≡ st
    → Keeps rows (upsert_existing fails rows a now existing st).0
unfolding upsert_existing
upsert_existing-Keeps fails rows a now existing revoked d f s = (d, λ j. stays refl)
upsert_existing-Keeps true rows a now existing approved d f s = (d, λ j. stays refl)
upsert_existing-Keeps false rows a now existing approved d f s =
    Same-Keeps _ _
      (update-Same existing.id (apply_agent_refresh a now) rows d (λ b. refl) (λ b. refl))
upsert_existing-Keeps true rows a now existing deleted d f s = (d, λ j. stays refl)
upsert_existing-Keeps false rows a now existing deleted d f s =
    revive-Keeps a now rows existing d f s
upsert_existing-Keeps true rows a now existing pending d f s = (d, λ j. stays refl)
upsert_existing-Keeps false rows a now existing pending d f s =
    Same-Keeps _ _
      (update-Same existing.id (apply_agent_refresh a now) rows d (λ b. refl) (λ b. refl))
upsert_existing-Keeps true rows a now existing (other t) d f s = (d, λ j. stays refl)
upsert_existing-Keeps false rows a now existing (other t) d f s =
    Same-Keeps _ _
      (update-Same existing.id (apply_agent_refresh a now) rows d (λ b. refl) (λ b. refl))

upsert_new-Keeps :
    (fails : Bool) (rows : List Agent) (a : Agent) (new_id : String) (now : ℕ)
    → DistinctIds rows
    → Keeps rows (upsert_new fails rows a new_id now).0
unfolding upsert_new
upsert_new-Keeps fails rows a new_id now d =
    let b : Agent = record a { status = AgentStatus.pending } in
    elim (Option-cases (insert_agent fails rows b new_id now)) [
      | inl n ↦ rw (n, upsert_new) (d, λ j. stays refl)
      | inr ((next, row), n) ↦
          rw (n, upsert_new) (insert_agent-Keeps fails rows b new_id now next row refl d n)
    ]

upsert_pending_agent-Keeps :
    (faults : AgentFaults) (rows : List Agent) (a : Agent) (new_id : String) (now : ℕ)
    → DistinctIds rows
    → Keeps rows (upsert_pending_agent faults rows a new_id now).0
unfolding upsert_pending_agent find_agent_by_identity
upsert_pending_agent-Keeps faults rows a new_id now d = elim (Bool-cases faults.read_fails) [
  | inl e ↦ rw e (d, λ j. stays refl)
  | inr e ↦ rw e (
      let p = has_identity a.name a.source_ip in
      elim (Option-cases (first_agent p rows)) [
        | inl n ↦ rw n (upsert_new-Keeps faults.write_fails rows a new_id now d)
        | inr (b, n) ↦ rw n (
            upsert_existing-Keeps faults.write_fails rows a now b b.status d
              (find-first_agent p rows b d n) refl)
      ])
]

admitted_by-rows : (u : List Agent × Upserted) → (admitted_by u).0 ≡ u.0
admitted_by-rows (rows, answers a st) = refl
admitted_by-rows (rows, refuses) = refl
admitted_by-rows (rows, has_failed) = refl

-- The path of the enrollment key ends without a statement or in `UpsertPendingAgent`.
pub by_enrollment_key-rows :
    (w : AuthWorld) (rows : List Agent) (hello : Hello) (source_ip : String)
    → let a = self_reported hello source_ip in
      ((by_enrollment_key w rows hello source_ip).0 ≡ rows)
      ⊎ ((by_enrollment_key w rows hello source_ip).0
          ≡ (upsert_pending_agent w.upsert rows a w.new_id w.now).0)
unfolding by_enrollment_key
by_enrollment_key-rows w rows hello source_ip =
    let u = upsert_pending_agent w.upsert rows (self_reported hello source_ip) w.new_id w.now in
    elim (Option-cases w.key_accepted) [
      | inl n ↦ inl (ground arith)
      | inr (ok, n) ↦
          elim (Bool-cases
            (ok && (not (str_eq hello.enrollment_key "") && not (str_eq hello.agent_name "")))) [
              | inl e ↦ inr (ground (arith, admitted_by-rows u))
              | inr e ↦ inl (ground arith)
            ]
    ]

by_enrollment_key-Keeps :
    (w : AuthWorld) (rows : List Agent) (hello : Hello) (source_ip : String)
    → DistinctIds rows
    → Keeps rows (by_enrollment_key w rows hello source_ip).0
by_enrollment_key-Keeps w rows hello source_ip d =
    elim (by_enrollment_key-rows w rows hello source_ip) [
      | inl e ↦ rw e (d, λ j. stays refl)
      | inr e ↦ rw e (
          upsert_pending_agent-Keeps w.upsert rows (self_reported hello source_ip) w.new_id w.now d)
    ]

pub authenticate-Keeps :
    (hash_secret : String → String) (w : AuthWorld) (rows : List Agent) (hello : Hello)
    (source_ip : String)
    → DistinctIds rows
    → Keeps rows (authenticate hash_secret w rows hello source_ip).0
unfolding authenticate
authenticate-Keeps hash_secret w rows hello source_ip d =
    elim (Option-cases (credential_row hash_secret w rows hello)) [
      | inl n ↦ rw (n, authenticate) (by_enrollment_key-Keeps w rows hello source_ip d)
      | inr (a, n) ↦ rw (n, authenticate) (Same-Keeps _ _ (by_credential-Same w rows hello a d))
    ]

pub Moves-allows : (x y : Option AgentStatus) → Moves x y → allows y ≡ allows x
Moves-allows x y (stays e) = ground (arith, e)
Moves-allows x y (enters e f) = ground (arith, e, f)
Moves-allows x y (returns e f) = ground (arith, e, f)
