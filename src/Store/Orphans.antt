-- ===== src/Store/Orphans.antt =====
-- `CloseOrphanOpenRounds` of dashboard/internal/store/rounds.go: what a start makes of the rounds
-- that the process before it left open.
pub mod Startup
use uptime_mesh.Prelude.{
  ℕ, ◌+◌, ◌*◌, Bool, true, false, not, ◌&&◌, ◌||◌, List, [], ◌∷◌, ◌++◌, String, str_eq, leb, ltb,
  if◌then◌else◌, keep, mem?,
}
use uptime_mesh.Prelude.Float64.{Float64}
use uptime_mesh.Store.{unix_sec}
use uptime_mesh.Store.Rounds.{
  RowState, Round, CheckResult, RoundClose, is_open, close_round, force_close_open_rounds,
}
use uptime_mesh.Store.States.{HourlyStat, hour_bucket, add_hourly_stat}

pub record OrphanRound : Type 0 where
  pub id : String
  pub monitor_id : String
  pub assigned : List String
  pub scheduled_at : ℕ
  pub download : Bool

-- The tables that the start writes.
pub record Books (F : Type 0) : Type 0 where
  pub rounds : List (Round F)
  pub hourly : List (HourlyStat F)

-- Which statements fail: those of one round by its id.
pub record Faults : Type 0 where
  pub list_fails : Bool
  pub sweep_fails : Bool
  pub results_fails : String → Bool
  pub close_fails : String → Bool
  pub hourly_fails : String → Bool

-- What is returned: how many rounds were closed, and whether there is an error.
pub record Closed : Type 0 where
  pub count : ℕ
  pub failed : Bool

-- `ORDER BY r.scheduled_at ASC`
abbrev pub by_schedule : OrphanRound → List OrphanRound → List OrphanRound
by_schedule o [] = o ∷ []
by_schedule o (p ∷ ps) =
    if leb o.scheduled_at p.scheduled_at then o ∷ p ∷ ps else p ∷ by_schedule o ps

module _ {F : Type 0} where
  -- `is_download` is the join with `monitors`: whether the monitor exists and is of that type.
  unfoldable pub list_orphan_open_rounds : (String → Bool) → List (Round F) → List OrphanRound
  list_orphan_open_rounds is_download [] = []
  list_orphan_open_rounds is_download (r ∷ rows) =
      let rest = list_orphan_open_rounds is_download rows in
      if is_open r.state
      then by_schedule
          (record {
            id = r.id;
            monitor_id = r.monitor_id;
            assigned = r.assigned_agent_ids;
            scheduled_at = r.scheduled_at;
            download = is_download r.monitor_id;
          })
          rest
      else rest

  -- `WHERE round_id=? AND late=0`
  abbrev pub on_time : String → List (CheckResult F) → List (CheckResult F)
  on_time id results = keep (λ r. str_eq r.round_id id && not r.late) results

  -- The keys of `reported`.
  abbrev pub reporters : List String → List (CheckResult F) → List String
  reporters assigned [] = []
  reporters assigned (r ∷ rs) =
      if mem? r.agent_id assigned then r.agent_id ∷ reporters assigned rs else reporters assigned rs

module _ {F : Type 0} (fl : Float64 F) where
  abbrev pub nothing_counted : RoundClose F
  nothing_counted = record {
    state = RowState.unknown;
    success = 0;
    valid = 0;
    success_rate = fl.of_int 0;
    latency_sum_ms = fl.of_int 0;
    latency_count = 0;
    speed_sum_kbps = fl.of_int 0;
    speed_count = 0;
    missing_alive = [];
    missing_dead = [];
    missing_undispatched = [];
  }

  -- The body of the loop over the samples.
  unfoldable pub count_sample : OrphanRound → RoundClose F → CheckResult F → RoundClose F
  count_sample rd upd r =
      if mem? r.agent_id rd.assigned
      then record upd {
        valid = upd.valid + 1;
        latency_sum_ms = fl.add upd.latency_sum_ms r.latency_ms;
        latency_count = upd.latency_count + 1;
        success = if r.ok then upd.success + 1 else upd.success;
        speed_sum_kbps =
            if rd.download && r.ok
            then fl.add upd.speed_sum_kbps r.speed_kbps
            else upd.speed_sum_kbps;
        speed_count = if rd.download then upd.speed_count + 1 else upd.speed_count;
      }
      else upd

  unfoldable pub count_samples : OrphanRound → RoundClose F → List (CheckResult F) → RoundClose F
  count_samples rd upd [] = upd
  count_samples rd upd (r ∷ rs) = count_samples rd (count_sample rd upd r) rs

  -- The fields that `recoverOrphanRound` writes.
  unfoldable pub recount : OrphanRound → List (CheckResult F) → RoundClose F
  unfolding count_samples
  recount rd results =
      let upd = count_samples rd nothing_counted results in
      let missing = keep (λ id. not (mem? id (reporters rd.assigned results))) rd.assigned in
      if ltb 0 upd.valid
      then record upd {
        missing_dead = missing;
        state = RowState.closed;
        success_rate =
            fl.mul (fl.div (fl.of_int upd.success) (fl.of_int upd.valid)) (fl.of_int 100);
      }
      else record upd { missing_dead = missing }

  recovered_hour : OrphanRound → RoundClose F → ℕ → HourlyStat F
  recovered_hour rd upd now = record {
    monitor_id = rd.monitor_id;
    hour = hour_bucket (rd.scheduled_at * 1_000_000_000);
    rounds = 1;
    valid = upd.valid;
    success = upd.success;
    latency_sum_ms = upd.latency_sum_ms;
    latency_count = upd.latency_count;
    updated_at = unix_sec now;
  }

  -- The second component is whether the round was closed, the third whether there is an error.
  unfoldable pub recover_orphan_round :
      Faults → List (CheckResult F) → ℕ → Books F → OrphanRound → Books F × Bool × Bool
  unfolding recovered_hour
  recover_orphan_round faults results now books rd =
      let upd = recount rd (on_time rd.id results) in
      let (rows, updated) = close_round books.rounds rd.id upd now in
      let closed = record books { rounds = rows } in
      if faults.results_fails rd.id
      then (books, false, true)
      else if faults.close_fails rd.id
      then (books, false, true)
      else if not updated
      then (closed, false, false)
      else if not (ltb 0 upd.valid)
      then (closed, true, false)
      else if faults.hourly_fails rd.id
      then (closed, true, true)
      else (
        record closed { hourly = add_hourly_stat fl books.hourly (recovered_hour rd upd now) },
        true,
        false,
      )

  unfoldable pub recover_all :
      Faults → List (CheckResult F) → ℕ → Books F → List OrphanRound → Books F × ℕ × Bool
  recover_all faults results now books [] = (books, 0, false)
  recover_all faults results now books (rd ∷ rds) =
      let (next, ok, failed) = recover_orphan_round faults results now books rd in
      let (last, n, failed') = recover_all faults results now next rds in
      (last, if ok then n + 1 else n, failed || failed')

  unfoldable pub close_orphan_open_rounds :
      Faults → (String → Bool) → List (CheckResult F) → ℕ → Books F → Books F × Closed
  close_orphan_open_rounds faults is_download results now books =
      let orphans = list_orphan_open_rounds is_download books.rounds in
      let (recovered, n, failed) = recover_all faults results now books orphans in
      let from = if faults.list_fails then books else recovered in
      let closed = if faults.list_fails then 0 else n in
      let (rows, swept) = force_close_open_rounds fl from.rounds now in
      if faults.sweep_fails then (from, record { count = closed; failed = true }) else (
        record from { rounds = rows },
        record { count = closed + swept; failed = faults.list_fails || failed },
      )
