-- ===== src/Store/Rounds.antt =====
-- dashboard/internal/store/rounds.go: the rows of `rounds` and `results`.
pub mod Closing
use uptime_mesh.Prelude.{
  ℕ, ◌+◌, Bool, true, false, ◌&&◌, List, [], ◌∷◌, ◌++◌, Option, none, some, String, str_eq, ◌==◌,
  if◌then◌else◌, count_if, keep, map, mem?,
}
use uptime_mesh.Prelude.Float64.{Float64}
use uptime_mesh.Store.{unix_sec}

pub data RowState : Type 0 where
  opened closed unknown : RowState

abbrev pub is_open : RowState → Bool
is_open RowState.opened = true
is_open _ = false

-- Times are in seconds, as stored; 0 in `closed_at` is the zero time.
pub record Round (F : Type 0) : Type 0 where
  pub id : String
  pub monitor_id : String
  pub assigned_agent_ids : List String
  pub scheduled_at : ℕ
  pub deadline : ℕ
  pub closed_at : ℕ
  pub state : RowState
  pub success : ℕ
  pub valid : ℕ
  pub total_agents : ℕ
  pub success_rate : F
  pub latency_sum_ms : F
  pub latency_count : ℕ
  pub speed_sum_kbps : F
  pub speed_count : ℕ
  pub missing_alive : List String
  pub missing_dead : List String
  pub missing_undispatched : List String
  pub created_at : ℕ

pub record CheckResult (F : Type 0) : Type 0 where
  pub round_id : String
  pub monitor_id : String
  pub agent_id : String
  pub ok : Bool
  pub latency_ms : F
  pub http_status : ℕ
  pub error : String
  pub speed_kbps : F
  pub late : Bool
  pub scheduled_at : ℕ
  pub created_at : ℕ

pub record RoundClose (F : Type 0) : Type 0 where
  pub state : RowState
  pub success : ℕ
  pub valid : ℕ
  pub success_rate : F
  pub latency_sum_ms : F
  pub latency_count : ℕ
  pub speed_sum_kbps : F
  pub speed_count : ℕ
  pub missing_alive : List String
  pub missing_dead : List String
  pub missing_undispatched : List String

module _ {F : Type 0} where
  -- `INSERT INTO rounds`; the row's times are converted and its creation time set.
  unfoldable pub insert_round : List (Round F) → Round F → ℕ → List (Round F)
  insert_round rows r now =
      rows
      ++ (record r {
        scheduled_at = unix_sec r.scheduled_at;
        deadline = unix_sec r.deadline;
        closed_at = unix_sec r.closed_at;
        created_at = unix_sec now;
      }
          ∷ [])

  -- `INSERT INTO results`
  unfoldable pub insert_result : List (CheckResult F) → CheckResult F → ℕ → List (CheckResult F)
  insert_result rows r now =
      rows
      ++ (record r {
        scheduled_at = unix_sec r.scheduled_at;
        created_at = unix_sec (if r.created_at == 0 then now else r.created_at);
      }
          ∷ [])

  -- `WHERE id=? AND state=?` of `CloseRound`
  abbrev pub closes : String → Round F → Bool
  closes id r = str_eq r.id id && is_open r.state

  abbrev pub write_close : RoundClose F → ℕ → Round F → Round F
  write_close upd now r = record r {
    state = upd.state;
    success = upd.success;
    valid = upd.valid;
    success_rate = upd.success_rate;
    latency_sum_ms = upd.latency_sum_ms;
    latency_count = upd.latency_count;
    speed_sum_kbps = upd.speed_sum_kbps;
    speed_count = upd.speed_count;
    missing_alive = upd.missing_alive;
    missing_dead = upd.missing_dead;
    missing_undispatched = upd.missing_undispatched;
    closed_at = unix_sec now;
  }

  -- The new rows, and whether exactly one row was affected.
  unfoldable pub close_round : List (Round F) → String → RoundClose F → ℕ → List (Round F) × Bool
  close_round rows id upd now = (
    map (λ r. if closes id r then write_close upd now r else r) rows,
    count_if (closes id) rows == 1,
  )

  -- The sweep of `forceCloseOpenRounds`, and how many rows it affected.
  unfoldable pub force_close_open_rounds : Float64 F → List (Round F) → ℕ → List (Round F) × ℕ
  force_close_open_rounds fl rows now = (
    map
        (λ r.
          if is_open r.state
          then record r {
            state = RowState.unknown;
            valid = 0;
            success = 0;
            success_rate = fl.of_int 0;
            closed_at = unix_sec now;
          }
          else r)
        rows,
    count_if (λ r. is_open r.state) rows,
  )
