-- ===== src/Hub/Reported.antt =====
-- What sessions write of the fields that agents report (`sameCapabilities` and `refreshIPFamilies`
-- of dashboard/internal/hub/session.go).
use uptime_mesh.Prelude.{
  ◌≡◌, refl, sym, ◌∙◌, map, Bool, true, false, List, [], ◌∷◌, Option, none, some, String, str_eq,
  eq_iff, arith, length, mem?, Distinct, count_if, count_if-le, count_if-swap, Option-cases,
  Bool-cases, inl, inr,
}
use uptime_mesh.Store.Agents.{Agent, or_kept, find_agent_by_id, set_agent_ip_availability}
use uptime_mesh.Store.Agents.Identity.{find-update_agent}
use uptime_mesh.Hub.Session.{
  all_members, same_capabilities, same_bool_ptr, Families, refresh_ip_families,
}

count_if-full :
    (p : String → Bool) (xs : List String) (k : String)
    → count_if p xs ≡ length xs
    → mem? k xs ≡ true
    → p k ≡ true
unfolding mem?
count_if-full p [] k e m = cc
count_if-full p (x ∷ xs) k e m = elim (Bool-cases (str_eq x k)) [
  | inl i ↦ ground (arith, eq_iff x k, count_if-le p xs)
  | inr i ↦ ground (arith, count_if-full p xs k, count_if-le p xs)
]

full-count_if :
    (p : String → Bool) (xs : List String)
    → ((k : String) → mem? k xs ≡ true → p k ≡ true)
    → count_if p xs ≡ length xs
unfolding mem?
full-count_if p [] h = refl
full-count_if p (x ∷ xs) h =
    ground (arith, h x, eq_iff x x, full-count_if p xs (λ k m. h k (ground arith)))

members-all_members :
    (set xs : List String)
    → ((k : String) → mem? k xs ≡ true → mem? k set ≡ true)
    → all_members set xs ≡ true
unfolding mem?
members-all_members set [] h = refl
members-all_members set (x ∷ xs) h =
    ground (arith, h x, eq_iff x x, members-all_members set xs (λ k m. h k (ground arith)))

all_members-members :
    (set xs : List String) (k : String)
    → all_members set xs ≡ true
    → mem? k xs ≡ true
    → mem? k set ≡ true
unfolding mem?
all_members-members set [] k h m = cc
all_members-members set (x ∷ xs) k h m = elim (Bool-cases (str_eq x k)) [
  | inl i ↦ ground (arith, eq_iff x k)
  | inr i ↦ ground (arith, all_members-members set xs k)
]

-- For lists of capabilities in each of which no name is repeated: they count as the same exactly if
-- they hold the same names, whatever the order.
pub same_capabilities_lem :
    (a b : List String)
    → Distinct a
    → Distinct b
    → (same_capabilities a b ≡ true → (k : String) → mem? k a ≡ mem? k b)
      × (((k : String) → mem? k a ≡ mem? k b) → same_capabilities a b ≡ true)
unfolding same_capabilities
same_capabilities_lem a b da db =
    let swap = count_if-swap a b da db in
    (
      λ h k.
          let lengths : length a ≡ length b = ground arith in
          let into : all_members a b ≡ true = ground arith in
          let all = full-count_if (λ y. mem? y a) b (λ j. all_members-members a b j into) in
          let back = count_if-full (λ x. mem? x b) a k (swap ∙ all ∙ sym lengths) in
          ground (arith, back, all_members-members a b k into),
      λ h.
          let all_b = full-count_if (λ y. mem? y a) b (λ j m. h j ∙ m) in
          let all_a = full-count_if (λ x. mem? x b) a (λ j m. sym (h j) ∙ m) in
          ground (arith, swap, all_a, all_b, members-all_members a b (λ j m. h j ∙ m)),
    )

-- The families that are stored of an agent.
abbrev pub stored_families : List Agent → String → Option (Option Bool × Option Bool)
stored_families rows id = elim (find_agent_by_id rows id) [
  | none ↦ none
  | some a ↦ some (a.ipv4_available, a.ipv6_available)
]

-- Heartbeats of one connection, none of whose writes fails.
pub heartbeats : List Agent → String → Families → List Families → List Agent × Families
heartbeats rows id cached [] = (rows, cached)
heartbeats rows id cached (f ∷ fs) =
    let (next, families) = refresh_ip_families false rows id cached f in
    heartbeats next id families fs

same_bool_ptr-eq : (a b : Option Bool) → same_bool_ptr a b ≡ true → a ≡ b
same_bool_ptr-eq none none h = refl
same_bool_ptr-eq (some true) (some true) h = refl
same_bool_ptr-eq (some false) (some false) h = refl
same_bool_ptr-eq none (some b) h = cc
same_bool_ptr-eq (some true) none h = cc
same_bool_ptr-eq (some false) none h = cc
same_bool_ptr-eq (some true) (some false) h = cc
same_bool_ptr-eq (some false) (some true) h = cc

refresh_ip_families-stored :
    (rows : List Agent) (id : String) (cached f : Families)
    → stored_families rows id ≡ some (cached.ipv4, cached.ipv6)
    → let t = refresh_ip_families false rows id cached f in
      (stored_families t.0 id ≡ some (or_kept f.ipv4 cached.ipv4, or_kept f.ipv6 cached.ipv6))
      × (t.1.ipv4 ≡ or_kept f.ipv4 cached.ipv4)
      × (t.1.ipv6 ≡ or_kept f.ipv6 cached.ipv6)
unfolding refresh_ip_families set_agent_ip_availability
refresh_ip_families-stored rows id cached f h =
    let next4 = or_kept f.ipv4 cached.ipv4 in
    let next6 = or_kept f.ipv6 cached.ipv6 in
    let g : Agent → Agent = λ a. record a {
      ipv4_available = or_kept next4 a.ipv4_available;
      ipv6_available = or_kept next6 a.ipv6_available;
    } in
    let update = find-update_agent id id g rows (λ a. refl) in
    elim (Option-cases (find_agent_by_id rows id)) [
      | inl n ↦ absurd (ground arith)
      | inr (a, n) ↦
          let same4 = same_bool_ptr-eq next4 cached.ipv4 in
          let same6 = same_bool_ptr-eq next6 cached.ipv6 in
          (
            ground (arith, update, eq_iff id id, n, same4, same6),
            ground (arith, same4),
            ground (arith, same6),
          )
    ]

-- The last of the reports that says something, or else what was known before.
abbrev pub last_known : Option Bool → List (Option Bool) → Option Bool
last_known known [] = known
last_known known (r ∷ rs) = last_known (or_kept r known) rs

-- Let a connection start from the families that are stored of its agent, and no write of its
-- heartbeats fail. After any heartbeats, what is stored of each family is the last value that a
-- heartbeat reported of it, or the one from before if none did: the writes that are skipped would
-- have changed nothing.
pub heartbeats-last_known :
    (fs : List Families) (rows : List Agent) (id : String) (cached : Families)
    → stored_families rows id ≡ some (cached.ipv4, cached.ipv6)
    → stored_families (heartbeats rows id cached fs).0 id
      ≡ some (
        last_known cached.ipv4 (map (λ f. f.ipv4) fs),
        last_known cached.ipv6 (map (λ f. f.ipv6) fs),
      )
unfolding heartbeats
heartbeats-last_known [] rows id cached h = h
heartbeats-last_known (f ∷ fs) rows id cached h =
    let t = refresh_ip_families false rows id cached f in
    let k = refresh_ip_families-stored rows id cached f h in
    let rest = heartbeats-last_known fs t.0 id t.1 (rw (k.1, k.2) k.0) in
    rest ∙ (λ i.
      some (last_known (k.1 i) (map (λ g. g.ipv4) fs), last_known (k.2 i) (map (λ g. g.ipv6) fs)))
