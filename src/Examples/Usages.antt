-- ===== src/Examples/Usages.antt =====
-- The cache of the database's size over two compactions.
use uptime_mesh.Prelude.{ℕ, ◌≡◌, ◌+◌, ◌++◌, refl, true, List, [], ◌∷◌, none, some, is_some}
use uptime_mesh.Store.Usage.{
  Usage, first_look, refresh_db_stats, end_refresh, invalidate_db_stats, second_look,
}
use uptime_mesh.Store.Usage.Epochs.{
  Section, section, refreshes, ends, invalidates, sections, Current, sections-Current,
  second_look-stale,
}

abbrev empty_usage : Usage ℕ
empty_usage = record { cache = none; running = none; epoch = 0 }

-- The second recomputation began before the compaction that it ends after.
abbrev compacted_twice : List (Section ℕ)
compacted_twice =
    refreshes
    ∷ ends (some 40) 100
    ∷ refreshes
    ∷ invalidates
    ∷ ends (some 40) 200
    ∷ refreshes
    ∷ ends (some 41) 300
    ∷ []

sections-Current_example :
    Current (λ e stats. stats ≡ 40 + e) (sections empty_usage compacted_twice)
unfolding section refresh_db_stats end_refresh invalidate_db_stats
sections-Current_example =
    sections-Current (λ e stats. stats ≡ 40 + e) empty_usage compacted_twice
      (tt, (refl, (tt, (tt, (refl, (tt, (refl, tt))))))) tt

abbrev old_usage : Usage ℕ
old_usage = record { cache = some (100, 40); running = none; epoch = 0 }

second_look-stale_example :
    let v = refresh_db_stats old_usage in
    (is_some (second_look (sections v (ends none 10_000_000_000 ∷ refreshes ∷ []))) ≡ true)
    × (second_look (sections v ((ends none 10_000_000_000 ∷ refreshes ∷ []) ++ invalidates ∷ []))
        ≡ none)
unfolding first_look
second_look-stale_example =
    second_look-stale old_usage 9_000_000_000 (ends none 10_000_000_000 ∷ refreshes ∷ []) refl refl
