-- ===== src/Store/Usage/Epochs.antt =====
-- Interleavings of the critical sections around the cache of the database's size
-- (dashboard/internal/store/stats.go).
use mathlib.Core.Path.{subst}
use uptime_mesh.Prelude.{
  ℕ, ◌≡◌, refl, Bool, true, false, List, [], ◌∷◌, Option, none, some, arith, is_some, ◌==◌,
  if◌then◌else◌, ap, ◌∙◌, ◌++◌, Option-cases, Bool-cases, inl, inr,
}
use uptime_mesh.Store.Usage.{
  Usage, stale, first_look, refresh_db_stats, second_look, end_refresh, invalidate_db_stats,
}

pub data Section (S : Type 0) : Type 0 where
  refreshes : Section S
  ends : Option S → ℕ → Section S
  invalidates : Section S

module _ {S : Type 0} where
  unfoldable pub section : Usage S → Section S → Usage S
  section u refreshes = refresh_db_stats u
  section u (ends out now) = end_refresh u out now
  section u invalidates = invalidate_db_stats u

  pub sections : Usage S → List (Section S) → Usage S
  sections u [] = u
  sections u (x ∷ xs) = sections (section u x) xs

-- `Of e stats` is any relation between an epoch and numbers, such as that they were read in it.
module _ {S : Type 0} (Of : ℕ → S → Type 0) where
  -- A recomputation that began in an epoch ends with numbers of that epoch, if with any.
  abbrev pub EndsWith : Option ℕ → Option S → Type 0
  EndsWith none out = Unit
  EndsWith (some began) none = Unit
  EndsWith (some began) (some stats) = Of began stats

  abbrev pub Honest : Usage S → Section S → Type 0
  Honest u refreshes = Unit
  Honest u (ends out now) = EndsWith u.running out
  Honest u invalidates = Unit

  abbrev pub AllHonest : Usage S → List (Section S) → Type 0
  AllHonest u [] = Unit
  AllHonest u (x ∷ xs) = Honest u x × AllHonest (section u x) xs

  abbrev pub CachedOf : ℕ → Option (ℕ × S) → Type 0
  CachedOf epoch none = Unit
  CachedOf epoch (some (at, stats)) = Of epoch stats

  -- What is cached is of the epoch now.
  abbrev pub Current : Usage S → Type 0
  Current u = CachedOf u.epoch u.cache

  either_way :
      (b : Bool) (u v : Usage S) → (b ≡ true → Current u) → Current v → Current (if b then u else v)
  either_way true u v f c = f refl
  either_way false u v f c = c

  -- A recomputation that began in the epoch now has numbers of it.
  end_refresh-Current_lem :
      (cache : Option (ℕ × S)) (running : Option ℕ) (epoch : ℕ) (out : Option S) (now : ℕ)
      → EndsWith running out
      → CachedOf epoch cache
      → Current (end_refresh (record { cache = cache; running = running; epoch = epoch }) out now)
  unfolding end_refresh
  end_refresh-Current_lem cache none epoch out now h c = c
  end_refresh-Current_lem cache (some began) epoch none now h c = c
  end_refresh-Current_lem cache (some began) epoch (some stats) now h c =
      either_way (began == epoch)
        (record { cache = some (now, stats); running = none; epoch = epoch })
        (record { cache = cache; running = none; epoch = epoch })
        (λ e. subst (λ n. Of n stats) (ground arith) h) c

  refresh-Current_lem :
      (cache : Option (ℕ × S)) (running : Option ℕ) (epoch : ℕ)
      → CachedOf epoch cache
      → Current (refresh_db_stats (record { cache = cache; running = running; epoch = epoch }))
  unfolding refresh_db_stats
  refresh-Current_lem cache none epoch c = c
  refresh-Current_lem cache (some began) epoch c = c

  section-Current : (u : Usage S) (x : Section S) → Honest u x → Current u → Current (section u x)
  unfolding section invalidate_db_stats
  section-Current u refreshes h c = refresh-Current_lem u.cache u.running u.epoch c
  section-Current u (ends out now) h c =
      end_refresh-Current_lem u.cache u.running u.epoch out now h c
  section-Current u invalidates h c = tt

  -- However the critical sections interleave, with recomputations whose numbers are of the epoch
  -- that they began in, the numbers that are cached are of the epoch now, where they were at first.
  pub sections-Current :
      (u : Usage S) (xs : List (Section S)) → AllHonest u xs → Current u → Current (sections u xs)
  unfolding sections
  sections-Current u [] h c = c
  sections-Current u (x ∷ xs) (h, hs) c =
      sections-Current (section u x) xs hs (section-Current u x h c)

abbrev pub no_invalidation : {S : Type 0} → List (Section S) → Bool
no_invalidation [] = true
no_invalidation (refreshes ∷ xs) = no_invalidation xs
no_invalidation (ends out now ∷ xs) = no_invalidation xs
no_invalidation (invalidates ∷ xs) = false

module _ {S : Type 0} where
  if-is_some :
      (b : Bool) (u v : Usage S)
      → is_some u.cache ≡ true
      → is_some v.cache ≡ true
      → is_some (if b then u else v).cache ≡ true
  if-is_some true u v p q = p
  if-is_some false u v p q = q

  refresh-keeps : (u : Usage S) → (refresh_db_stats u).cache ≡ u.cache
  unfolding refresh_db_stats
  refresh-keeps u = elim (Bool-cases (is_some u.running)) [
    | inl e ↦ ground (arith, e)
    | inr e ↦ ground (arith, e)
  ]

  end_refresh-keeps :
      (cache : Option (ℕ × S)) (running : Option ℕ) (epoch : ℕ) (out : Option S) (now : ℕ)
      → is_some cache ≡ true
      → is_some
          (end_refresh (record { cache = cache; running = running; epoch = epoch }) out now).cache
        ≡ true
  unfolding end_refresh
  end_refresh-keeps cache none epoch out now h = h
  end_refresh-keeps cache (some began) epoch none now h = h
  end_refresh-keeps cache (some began) epoch (some stats) now h =
      if-is_some (began == epoch)
        (record { cache = some (now, stats); running = none; epoch = epoch })
        (record { cache = cache; running = none; epoch = epoch }) refl h

  sections-keep :
      (u : Usage S) (xs : List (Section S))
      → no_invalidation xs ≡ true
      → is_some u.cache ≡ true
      → is_some (sections u xs).cache ≡ true
  unfolding section sections
  sections-keep u [] n h = h
  sections-keep u (refreshes ∷ xs) n h =
      sections-keep (refresh_db_stats u) xs n (ap is_some (refresh-keeps u) ∙ h)
  sections-keep u (ends out now ∷ xs) n h =
      sections-keep (end_refresh u out now) xs n
        (end_refresh-keeps u.cache u.running u.epoch out now h)
  sections-keep u (invalidates ∷ xs) n h = ground (arith, n)

  second_look-is_some : (u : Usage S) → is_some (second_look u) ≡ is_some u.cache
  unfolding second_look
  second_look-is_some u = elim (Option-cases u.cache) [
    | inl e ↦ ground (arith, e)
    | inr (s, e) ↦ ground (arith, e)
  ]

  stale-is_some : (u : Usage S) (now : ℕ) → first_look u now ≡ stale → is_some u.cache ≡ true
  unfolding first_look
  stale-is_some u now h = elim (Option-cases u.cache) [
    | inl e ↦ ground (arith, e, h)
    | inr (s, e) ↦ ground (arith, e)
  ]

  sections-invalidated :
      (u : Usage S) (xs : List (Section S))
      → second_look (sections u (xs ++ invalidates ∷ [])) ≡ none
  unfolding sections section second_look invalidate_db_stats
  sections-invalidated u [] = refl
  sections-invalidated u (x ∷ xs) = sections-invalidated (section u x) xs

  -- A call of `DBStats` that finds a value out of date returns one in its last section after any
  -- sections in between that invalidate nothing, and faults if an invalidation follows them.
  pub second_look-stale :
      (u : Usage S) (now : ℕ) (xs : List (Section S))
      → first_look u now ≡ stale
      → no_invalidation xs ≡ true
      → let v = refresh_db_stats u in
        (is_some (second_look (sections v xs)) ≡ true)
        × (second_look (sections v (xs ++ invalidates ∷ [])) ≡ none)
  second_look-stale u now xs h n =
      let v = refresh_db_stats u in
      let e = ap is_some (refresh-keeps u) ∙ stale-is_some u now h in
      (second_look-is_some (sections v xs) ∙ sections-keep v xs n e, sections-invalidated v xs)
