-- ===== src/Store/States.antt =====
-- dashboard/internal/store/monitor_states.go, state_changes.go and the hourly upsert of stats.go.
use uptime_mesh.Prelude.{
  ℕ, ◌+◌, ◌/◌, ◌≡◌, refl, Bool, true, false, ◌&&◌, List, [], ◌∷◌, ◌++◌, Option, none, some, String,
  str_eq, eq_iff, ◌==◌, leb, if◌then◌else◌, arith,
}
use uptime_mesh.Prelude.Float64.{Float64}
use uptime_mesh.Alert.{AlertState}
use uptime_mesh.Store.{unix_sec}

-- The text of the last closed round's state: empty, CLOSED or UNKNOWN.
pub data LastRound : Type 0 where
  never closed unknown : LastRound

pub record MonitorState (F : Type 0) : Type 0 where
  pub id : String
  pub alert_state : AlertState
  pub consecutive : ℕ
  pub last_round_state : LastRound
  pub last_success_rate : F
  pub last_speed_kbps : F
  pub updated_at : ℕ

pub record MonitorStateChange (F : Type 0) : Type 0 where
  pub monitor_id : String
  pub round_id : String
  pub from_state : AlertState
  pub to_state : AlertState
  pub success_rate : F
  pub speed_kbps : F
  pub duration_sec : ℕ
  pub changed_at : ℕ

-- The bucket is the number of the UTC hour: `HourBucket` is a text of the same information.
pub record HourlyStat (F : Type 0) : Type 0 where
  pub monitor_id : String
  pub hour : ℕ
  pub rounds : ℕ
  pub valid : ℕ
  pub success : ℕ
  pub latency_sum_ms : F
  pub latency_count : ℕ
  pub updated_at : ℕ

abbrev pub hour_bucket : ℕ → ℕ
hour_bucket t = t / 3_600_000_000_000

abbrev pub same_state : AlertState → AlertState → Bool
same_state AlertState.unset AlertState.unset = true
same_state AlertState.up AlertState.up = true
same_state AlertState.down AlertState.down = true
same_state _ _ = false

module _ {F : Type 0} (fl : Float64 F) where
  -- The state of a monitor with no row yet.
  abbrev pub initial_state : String → MonitorState F
  initial_state id = record {
    id = id;
    alert_state = AlertState.up;
    consecutive = 0;
    last_round_state = LastRound.never;
    last_success_rate = fl.of_int 0;
    last_speed_kbps = fl.of_int 0;
    updated_at = 0;
  }

  -- The state, and whether there is a row.
  unfoldable pub get_monitor_state : List (MonitorState F) → String → MonitorState F × Bool
  get_monitor_state [] id = (initial_state id, false)
  get_monitor_state (st ∷ rows) id =
      if str_eq st.id id then (st, true) else get_monitor_state rows id

module _ {F : Type 0} where
  -- `INSERT … ON CONFLICT(id) DO UPDATE`
  unfoldable pub put_monitor_state :
      List (MonitorState F) → MonitorState F → ℕ → List (MonitorState F)
  put_monitor_state [] st now = (record st { updated_at = unix_sec now }) ∷ []
  put_monitor_state (r ∷ rows) st now =
      if str_eq r.id st.id
      then (record st { updated_at = unix_sec now }) ∷ rows
      else r ∷ put_monitor_state rows st now

  -- `INSERT INTO monitor_state_changes`
  unfoldable pub insert_state_change :
      List (MonitorStateChange F) → MonitorStateChange F → ℕ → List (MonitorStateChange F)
  insert_state_change rows sc now =
      rows
      ++ (record sc { changed_at = unix_sec (if sc.changed_at == 0 then now else sc.changed_at) }
          ∷ [])

  -- `ORDER BY changed_at DESC, rowid DESC LIMIT 1`: of equal times the later row.
  unfoldable pub latest :
      Option (MonitorStateChange F) → MonitorStateChange F → Option (MonitorStateChange F)
  latest none sc = some sc
  latest (some best) sc = if leb best.changed_at sc.changed_at then some sc else some best

  find_last_from :
      Option (MonitorStateChange F)
      → List (MonitorStateChange F)
      → String
      → AlertState
      → Option (MonitorStateChange F)
  find_last_from best [] monitor_id to_state = best
  find_last_from best (sc ∷ rows) monitor_id to_state =
      find_last_from
        (if str_eq sc.monitor_id monitor_id && same_state sc.to_state to_state
          then latest best sc
          else best)
        rows monitor_id to_state

  unfoldable pub find_last_state_change_by_to_state :
      List (MonitorStateChange F) → String → AlertState → Option (MonitorStateChange F)
  unfolding find_last_from latest
  find_last_state_change_by_to_state = find_last_from none

  -- The upsert of `AddHourlyStat`, keyed by the monitor and the hour.
  unfoldable pub add_hourly_stat :
      Float64 F → List (HourlyStat F) → HourlyStat F → List (HourlyStat F)
  add_hourly_stat fl [] d = d ∷ []
  add_hourly_stat fl (h ∷ rows) d =
      if str_eq h.monitor_id d.monitor_id && h.hour == d.hour
      then record h {
        rounds = h.rounds + d.rounds;
        valid = h.valid + d.valid;
        success = h.success + d.success;
        latency_sum_ms = fl.add h.latency_sum_ms d.latency_sum_ms;
        latency_count = h.latency_count + d.latency_count;
        updated_at = d.updated_at;
      }
        ∷ rows
      else h ∷ add_hourly_stat fl rows d

-- What is put is read back, with the time of the writing in whole seconds, and the states of the
-- other monitors are as they were.
pub get-put_monitor_state :
    {F : Type 0} (fl : Float64 F) (rows : List (MonitorState F)) (st : MonitorState F) (now : ℕ)
    (id : String)
    → get_monitor_state fl (put_monitor_state rows st now) id ≡ (
        if str_eq st.id id
        then (record st { updated_at = unix_sec now }, true)
        else get_monitor_state fl rows id)
unfolding get_monitor_state put_monitor_state
get-put_monitor_state fl [] st now id = refl
get-put_monitor_state fl (r ∷ rows) st now id = ground (
  arith,
  eq_iff r.id st.id,
  eq_iff r.id id,
  eq_iff st.id id,
  get-put_monitor_state fl rows st now id,
)

-- The state that is read for a monitor bears its id.
pub get_monitor_state-id :
    {F : Type 0} (fl : Float64 F) (rows : List (MonitorState F)) (id : String)
    → (get_monitor_state fl rows id).0.id ≡ id
unfolding get_monitor_state
get_monitor_state-id fl [] id = refl
get_monitor_state-id fl (r ∷ rows) id =
    ground (arith, eq_iff r.id id, get_monitor_state-id fl rows id)
