-- ===== src/Store/Prune.antt =====
-- The deletion of old rows in batches: `PruneOldRounds`, `PruneOldHourlyStats` and `PruneOldResults`
-- of dashboard/internal/store/stats.go, `PruneOldStateChanges` of state_changes.go. Which rows a
-- `LIMIT` picks is not said by the statement; here they are the first of the table.
pub mod Batches
use uptime_mesh.Prelude.{
  ℕ, zero, suc, ◌+◌, ◌-◌, ◌*◌, ◌≤◌, ◌≡◌, refl, Bool, true, false, not, ◌&&◌, List, [], ◌∷◌, arith,
  ltb, leb, if◌then◌else◌, keep, count_if, Bool-cases, inl, inr,
}
use uptime_mesh.Store.{unix_sec}
use uptime_mesh.Store.Rounds.{Round, CheckResult, is_open}
use uptime_mesh.Store.States.{MonitorStateChange, HourlyStat, hour_bucket}

abbrev pub prune_batch_size : ℕ
prune_batch_size = 5000

abbrev pub prune_max_batches : ℕ
prune_max_batches = 200

-- What a loop returns: the rows, how many were deleted, and whether there is an error.
pub record Pruned (A : Type 0) : Type 0 where
  pub rows : List A
  pub total : ℕ
  pub failed : Bool

module _ {A : Type 0} where
  -- `DELETE … WHERE id IN (SELECT id … WHERE old LIMIT limit)`
  unfoldable pub delete_batch : (A → Bool) → ℕ → List A → List A
  delete_batch old limit [] = []
  delete_batch old limit (x ∷ xs) =
      let rest = delete_batch old (if old x then limit - 1 else limit) xs in
      if old x && ltb 0 limit then rest else x ∷ rest

  -- `RowsAffected` of it.
  abbrev pub affected : (A → Bool) → ℕ → List A → ℕ
  affected old limit rows = let n = count_if old rows in if leb n limit then n else limit

  -- The loop with `left` batches to go, of `size` rows each; `fails` says whether the statement does
  -- with so many to go.
  unfoldable pub prune_loop : (ℕ → Bool) → (A → Bool) → ℕ → ℕ → List A → ℕ → Pruned A
  prune_loop fails old size zero rows total = record { rows = rows; total = total; failed = false }
  prune_loop fails old size (suc left) rows total =
      let n = affected old size rows in
      let next = delete_batch old size rows in
      let rest = prune_loop fails old size left next (total + n) in
      if fails left
      then record { rows = rows; total = total; failed = true }
      else if ltb n size
      then record { rows = next; total = total + n; failed = false }
      else rest

  unfoldable pub prune : (ℕ → Bool) → (A → Bool) → List A → Pruned A
  prune fails old rows = prune_loop fails old prune_batch_size prune_max_batches rows 0

module _ {F : Type 0} where
  -- `scheduled_at < ? AND state<>?`: an open round is never old.
  abbrev pub is_old_round : ℕ → Round F → Bool
  is_old_round cutoff r = ltb r.scheduled_at (unix_sec cutoff) && not (is_open r.state)

  abbrev pub is_old_hour : ℕ → HourlyStat F → Bool
  is_old_hour cutoff h = ltb h.hour (hour_bucket cutoff)

  abbrev pub is_old_result : ℕ → CheckResult F → Bool
  is_old_result cutoff r = ltb r.created_at (unix_sec cutoff)

  abbrev pub is_old_change : ℕ → MonitorStateChange F → Bool
  is_old_change cutoff c = ltb c.changed_at (unix_sec cutoff)

  unfoldable pub prune_old_rounds : (ℕ → Bool) → List (Round F) → ℕ → Pruned (Round F)
  prune_old_rounds fails rows cutoff = prune fails (is_old_round cutoff) rows

  unfoldable pub prune_old_hourly_stats :
      (ℕ → Bool) → List (HourlyStat F) → ℕ → Pruned (HourlyStat F)
  prune_old_hourly_stats fails rows cutoff = prune fails (is_old_hour cutoff) rows

  unfoldable pub prune_old_results : (ℕ → Bool) → List (CheckResult F) → ℕ → Pruned (CheckResult F)
  prune_old_results fails rows cutoff = prune fails (is_old_result cutoff) rows

  -- One statement, of which the limit is none.
  unfoldable pub prune_old_state_changes :
      Bool → List (MonitorStateChange F) → ℕ → Pruned (MonitorStateChange F)
  prune_old_state_changes fails rows cutoff =
      if fails then record { rows = rows; total = 0; failed = true } else record {
        rows = keep (λ c. not (is_old_change cutoff c)) rows;
        total = count_if (is_old_change cutoff) rows;
        failed = false;
      }
