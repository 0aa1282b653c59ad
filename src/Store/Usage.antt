-- ===== src/Store/Usage.antt =====
-- The cache of the database's size and its recomputation in the background, `DBStats` and
-- `RefreshDBStats` of dashboard/internal/store/stats.go. A step is one critical section of `statsMu`;
-- `DBStats` of a value that is out of date has two, with a call of `RefreshDBStats` in between.
pub mod Epochs
use uptime_mesh.Prelude.{
  ℕ, suc, ◌+◌, ◌*◌, Bool, true, false, not, ◌&&◌, ◌||◌, List, [], ◌∷◌, Option, none, some, ◌==◌,
  ltb, if◌then◌else◌, is_some,
}
use uptime_mesh.Store.Compact.{
  CompactWorld, CompactStatus, Ended, with_result, with_error, waits, run_compact,
}
use uptime_mesh.Scheduler.Plan.{second}

abbrev pub db_stats_cache_ttl : ℕ
db_stats_cache_ttl = 5 * second

-- `S` is the type of the numbers. `running` is the epoch that the recomputation under way has read
-- when it began; its presence is `statsRefreshing`.
pub record Usage (S : Type 0) : Type 0 where
  pub cache : Option (ℕ × S)
  pub running : Option ℕ
  pub epoch : ℕ

-- What the first section of `DBStats` finds: a value to return, one that is out of date, or none.
pub data FirstLook (S : Type 0) : Type 0 where
  fresh : S → FirstLook S
  stale : FirstLook S
  nothing_cached : FirstLook S

module _ {S : Type 0} where
  unfoldable pub first_look : Usage S → ℕ → FirstLook S
  first_look u now = elim u.cache [
    | none ↦ nothing_cached
    | some (at, stats) ↦ if ltb now (at + db_stats_cache_ttl) then fresh stats else stale
  ]

  unfoldable pub refresh_db_stats : Usage S → Usage S
  refresh_db_stats u = if is_some u.running then u else record u { running = some u.epoch }

  -- The last section of `DBStats` where the value was out of date. `none` is the fault of reading
  -- `s.statsCache.stats` of a nil `statsCache`.
  unfoldable pub second_look : Usage S → Option S
  second_look u = elim u.cache [ none ↦ none | some (at, stats) ↦ some stats ]

  -- The last section of the recomputation, at `now`: `none` is an error of `readDBStats`.
  unfoldable pub end_refresh : Usage S → Option S → ℕ → Usage S
  end_refresh u out now = elim u.running [
    | none ↦ u
    | some began ↦ elim out [
      | none ↦ record u { running = none }
      | some stats ↦
          if began == u.epoch
          then record u { cache = some (now, stats); running = none }
          else record u { running = none }
    ]
  ]

  -- `invalidateDBStats`, at the end of a compaction.
  unfoldable pub invalidate_db_stats : Usage S → Usage S
  invalidate_db_stats u = record u { cache = none; epoch = suc u.epoch }

  -- What `runCompact` leaves of the cache.
  unfoldable pub usage_after : CompactWorld → CompactStatus → Usage S → Usage S
  usage_after w st u = elim (run_compact w st).0 [
    | with_result r ↦ invalidate_db_stats u
    | with_error ↦ u
    | waits ↦ u
  ]

  -- `DBStatsComputing`
  unfoldable pub db_stats_computing : Usage S → Bool
  db_stats_computing u = is_some u.running || not (is_some u.cache)
