-- ===== src/Store/Agents/Identity.antt =====
-- What the statements of dashboard/internal/store/agents.go leave of the row of an id.
use uptime_mesh.Prelude.{
  ◌≡◌, refl, sym, ap, ◌∙◌, Bool, true, false, ◌||◌, List, [], ◌∷◌, ◌++◌, none, some, String, str_eq,
  eq_iff, Option, if◌then◌else◌, arith, Bool-cases, inl, inr, is_some,
}
use uptime_mesh.Store.Agents.{
  Agent, update_agent, first_agent, find_agent_by_id, delete_agent, is_taken,
}

abbrev pub changed : (Agent → Agent) → Option Agent → Option Agent
changed f none = none
changed f (some a) = some (f a)

-- No id stands in two rows.
abbrev pub has_id : String → List Agent → Bool
has_id id [] = false
has_id id (a ∷ rows) = if str_eq a.id id then true else has_id id rows

abbrev pub DistinctIds : List Agent → Type 0
DistinctIds [] = Unit
DistinctIds (a ∷ rows) = (has_id a.id rows ≡ false) × DistinctIds rows

pub find-update_agent :
    (id j : String) (f : Agent → Agent) (rows : List Agent)
    → ((a : Agent) → (f a).id ≡ a.id)
    → find_agent_by_id (update_agent id f rows) j
      ≡ (if str_eq id j then changed f (find_agent_by_id rows j) else find_agent_by_id rows j)
unfolding find_agent_by_id update_agent
find-update_agent id j f [] h = ground arith
find-update_agent id j f (a ∷ rows) h =
    ground (arith, h a, eq_iff id j, eq_iff a.id id, eq_iff a.id j, find-update_agent id j f rows h)

pub find-delete_agent :
    (id j : String) (rows : List Agent)
    → find_agent_by_id (delete_agent rows id) j
      ≡ (if str_eq id j then none else find_agent_by_id rows j)
unfolding find_agent_by_id delete_agent
find-delete_agent id j [] = ground arith
find-delete_agent id j (a ∷ rows) =
    ground (arith, eq_iff id j, eq_iff a.id id, eq_iff a.id j, find-delete_agent id j rows)

pub find-append :
    (j : String) (rows : List Agent) (a : Agent)
    → find_agent_by_id (rows ++ (a ∷ [])) j ≡ (
        if is_some (find_agent_by_id rows j)
        then find_agent_by_id rows j
        else if str_eq a.id j
        then some a
        else none)
unfolding find_agent_by_id
find-append j [] a = ground arith
find-append j (b ∷ rows) a = ground (arith, find-append j rows a)

has_id-update_agent :
    (id j : String) (f : Agent → Agent) (rows : List Agent)
    → ((a : Agent) → (f a).id ≡ a.id)
    → has_id j (update_agent id f rows) ≡ has_id j rows
unfolding update_agent
has_id-update_agent id j f [] h = refl
has_id-update_agent id j f (a ∷ rows) h = ground (arith, h a, has_id-update_agent id j f rows h)

pub update_agent-DistinctIds :
    (id : String) (f : Agent → Agent) (rows : List Agent)
    → ((a : Agent) → (f a).id ≡ a.id)
    → DistinctIds rows
    → DistinctIds (update_agent id f rows)
unfolding update_agent
update_agent-DistinctIds id f [] h d = d
update_agent-DistinctIds id f (a ∷ rows) h (n, d) = (
  ground (arith, h a, has_id-update_agent id a.id f rows h),
  update_agent-DistinctIds id f rows h d,
)

has_id-delete_agent :
    (id j : String) (rows : List Agent)
    → has_id j rows ≡ false
    → has_id j (delete_agent rows id) ≡ false
unfolding delete_agent
has_id-delete_agent id j [] h = refl
has_id-delete_agent id j (a ∷ rows) h = ground (arith, has_id-delete_agent id j rows)

pub delete_agent-DistinctIds :
    (id : String) (rows : List Agent) → DistinctIds rows → DistinctIds (delete_agent rows id)
unfolding delete_agent
delete_agent-DistinctIds id [] d = d
delete_agent-DistinctIds id (a ∷ rows) (n, d) =
    ground (arith, delete_agent-DistinctIds id rows d, has_id-delete_agent id a.id rows n)

has_id-append :
    (j : String) (rows : List Agent) (a : Agent)
    → has_id j (rows ++ (a ∷ [])) ≡ has_id j rows || str_eq a.id j
has_id-append j [] a = ground arith
has_id-append j (b ∷ rows) a = ground (arith, has_id-append j rows a)

pub has_id-is_taken :
    (rows : List Agent) (a : Agent) → is_taken rows a ≡ false → has_id a.id rows ≡ false
has_id-is_taken [] a h = refl
has_id-is_taken (b ∷ rows) a h = ground (arith, has_id-is_taken rows a)

append_fresh-DistinctIds :
    (rows : List Agent) (a : Agent)
    → has_id a.id rows ≡ false
    → DistinctIds rows
    → DistinctIds (rows ++ (a ∷ []))
append_fresh-DistinctIds [] a h d = (refl, d)
append_fresh-DistinctIds (b ∷ rows) a h (n, d) = (
  ground (arith, has_id-append b.id rows a, eq_iff a.id b.id, eq_iff b.id a.id),
  append_fresh-DistinctIds rows a (ground (arith, eq_iff b.id a.id)) d,
)

pub append-DistinctIds :
    (rows : List Agent) (a : Agent)
    → is_taken rows a ≡ false
    → DistinctIds rows
    → DistinctIds (rows ++ (a ∷ []))
append-DistinctIds rows a h = append_fresh-DistinctIds rows a (has_id-is_taken rows a h)

-- A row that another condition finds is the row of its id.
first_agent-has_id :
    (p : Agent → Bool) (rows : List Agent) (a : Agent)
    → first_agent p rows ≡ some a
    → has_id a.id rows ≡ true
first_agent-has_id p [] a h = cc
first_agent-has_id p (b ∷ rows) a h = ground (arith, eq_iff b.id a.id, first_agent-has_id p rows a)

pub find-first_agent :
    (p : Agent → Bool) (rows : List Agent) (a : Agent)
    → DistinctIds rows
    → first_agent p rows ≡ some a
    → find_agent_by_id rows a.id ≡ some a
unfolding find_agent_by_id
find-first_agent p [] a d h = cc
find-first_agent p (b ∷ rows) a (n, d) h =
    ground (arith, eq_iff b.id a.id, find-first_agent p rows a d, first_agent-has_id p rows a)

-- The row that is found bears the id.
pub find-id :
    (rows : List Agent) (id : String) (a : Agent) → find_agent_by_id rows id ≡ some a → a.id ≡ id
unfolding find_agent_by_id
find-id [] id a h = cc
find-id (b ∷ rows) id a h = ground (arith, eq_iff b.id id, find-id rows id a)

pub find-absent :
    (id : String) (rows : List Agent) → has_id id rows ≡ false → find_agent_by_id rows id ≡ none
unfolding find_agent_by_id
find-absent id [] h = refl
find-absent id (a ∷ rows) h = ground (arith, find-absent id rows)

-- What a condition finds meets it.
pub first_agent-passes :
    (p : Agent → Bool) (rows : List Agent) (a : Agent) → first_agent p rows ≡ some a → p a ≡ true
first_agent-passes p [] a h = cc
first_agent-passes p (b ∷ rows) a h = elim (Bool-cases (p b)) [
  | inl e ↦ let same : b ≡ a = ground arith in ap p (sym same) ∙ e
  | inr e ↦ first_agent-passes p rows a (ground arith)
]
