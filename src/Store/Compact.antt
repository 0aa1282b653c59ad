-- ===== src/Store/Compact.antt =====
-- The compaction of the database, dashboard/internal/store/compact.go. What the statements and the
-- sizes of the files are is an input; what the goroutine that reports the progress meets, its ticks
-- and the end of its context, is a sequence of events.
pub mod Progress
use uptime_mesh.Prelude.{
  ℕ, ◌+◌, ◌-◌, ◌*◌, ◌/◌, Bool, true, false, not, ◌&&◌, List, [], ◌∷◌, Option, none, some, ltb, leb,
  if◌then◌else◌, ◌==◌,
}

pub data CompactStage : Type 0 where
  idle preparing vacuum finishing : CompactStage

-- The sizes are bytes; `saved_bytes` and `wal_bytes` are differences that may be negative, here the
-- two sides of each.
pub record CompactResult : Type 0 where
  pub before_bytes : ℕ
  pub after_bytes : ℕ
  pub free_pages : ℕ
  pub wal_before : ℕ
  pub wal_after : ℕ

-- `none` in `progress` is -1, a progress that cannot be estimated; `err` is whether there is one.
pub record CompactStatus : Type 0 where
  pub running : Bool
  pub progress : Option ℕ
  pub stage : CompactStage
  pub result : Option CompactResult
  pub err : Bool

-- What the goroutine's `select` takes next: a tick, with the size of the write-ahead log then, or
-- the end of the context.
pub data Moment : Type 0 where
  ticks : ℕ → Moment
  context_done : Moment

-- `percent grown est` is `int(float64(grown)/float64(estBytes)*90)`.
pub record CompactWorld : Type 0 where
  pub pages_before : Option (ℕ × ℕ × ℕ)
  pub wal_before : ℕ
  pub first_checkpoint_fails : Bool
  pub wal_base : ℕ
  pub percent : ℕ → ℕ → ℕ
  pub events : List Moment
  pub vacuum_fails : Bool
  pub last_checkpoint_fails : Bool
  pub pages_after : Option (ℕ × ℕ × ℕ)
  pub wal_after : ℕ

unfoldable pub set_compact_progress : CompactStage → Option ℕ → CompactStatus → CompactStatus
set_compact_progress stage progress st = record st { stage = stage; progress = progress }

-- `(before/pageSize - free) * pageSize`. Where more pages are free than there are, the source has a
-- number below 0, and does with it what it does with 0.
unfoldable pub est_bytes : ℕ → ℕ → ℕ → ℕ
est_bytes before free page_size = (before / page_size - free) * page_size

-- The body of the goroutine's loop after a tick.
unfoldable pub report_progress : (ℕ → ℕ → ℕ) → ℕ → ℕ → ℕ → CompactStatus → CompactStatus
report_progress percent base est wal st =
    let p = 5 + percent (wal - base) est in
    if leb wal base
    then st
    else if est == 0
    then set_compact_progress CompactStage.vacuum none st
    else set_compact_progress CompactStage.vacuum (some (if ltb 99 p then 99 else p)) st

-- The goroutine: whether it has ended, and so has closed `vacuumDone`.
unfoldable pub watch : (ℕ → ℕ → ℕ) → ℕ → ℕ → List Moment → CompactStatus → Bool × CompactStatus
watch percent base est [] st = (false, st)
watch percent base est (context_done ∷ es) st = (true, st)
watch percent base est (ticks wal ∷ es) st =
    watch percent base est es (report_progress percent base est wal st)

-- How a compaction ends: with a result, with an error, or not yet, where it waits.
pub data Ended : Type 0 where
  with_result : CompactResult → Ended
  with_error : Ended
  waits : Ended

-- What follows after `<-vacuumDone`. The call of `invalidateDBStats` before the result is
-- `usage_after` of Store/Usage.
unfoldable pub finish : CompactWorld → ℕ → ℕ → CompactStatus → Ended × CompactStatus
finish w before free st =
    let finishing_at = set_compact_progress CompactStage.finishing (some 99) st in
    if w.vacuum_fails
    then (with_error, st)
    else if w.last_checkpoint_fails
    then (with_error, finishing_at)
    else elim w.pages_after [
      | none ↦ (with_error, finishing_at)
      | some (after, free_after, page_size) ↦ (
        with_result (record {
          before_bytes = before;
          after_bytes = after;
          free_pages = free;
          wal_before = w.wal_before;
          wal_after = w.wal_after;
        }),
        finishing_at,
      )
    ]

-- The call of `cancelDBStatsRefresh` at the start only lets a recomputation under way end with an
-- error, which is an outcome of `end_refresh` of Store/Usage.
unfoldable pub run_compact : CompactWorld → CompactStatus → Ended × CompactStatus
run_compact w st = elim w.pages_before [
  | none ↦ (with_error, st)
  | some (before, free, page_size) ↦
      let prepared = set_compact_progress CompactStage.preparing (some 5) st in
      let est = est_bytes before free page_size in
      let (ended, watched) = watch w.percent w.wal_base est w.events prepared in
      if w.first_checkpoint_fails
      then (with_error, st)
      else if ended
      then finish w before free watched
      else (waits, watched)
]

abbrev pub begun : CompactStatus
begun = record {
  running = true;
  progress = some 0;
  stage = CompactStage.preparing;
  result = none;
  err = false;
}

abbrev pub settled_as : Ended → CompactStatus → CompactStatus
settled_as (with_result r) st = record st { running = false; progress = some 100; result = some r }
settled_as with_error st = record st { running = false; progress = some 100; err = true }
settled_as waits st = st

unfoldable pub run_compact_tracked : CompactWorld → Ended × CompactStatus
run_compact_tracked w = let (ended, st) = run_compact w begun in (ended, settled_as ended st)

-- `Compact` and the goroutine of `StartCompact`: `none` is `ErrCompactBusy`, where the lock is taken.
unfoldable pub compact : Bool → CompactWorld → Option (Ended × CompactStatus)
compact locked w = if locked then none else some (run_compact_tracked w)
