-- ===== src/Store/Monitors.antt =====
-- Statements on many tables or many monitors, dashboard/internal/store/monitors.go: pausing,
-- deletion with all that belongs to a monitor, and the channels of all monitors. `withTx` is written
-- out: a statement that fails leaves everything as it was.

pub mod Changes
pub mod Channels
pub mod Cascade
use uptime_mesh.Prelude.{
  ℕ, ◌+◌, Bool, true, false, not, ◌&&◌, List, [], ◌∷◌, ◌++◌, Option, none, some, String, str_eq,
  ◌==◌, ltb, if◌then◌else◌, keep, count_if, length, map, mem?,
}
use uptime_mesh.Store.{unix_sec}
use uptime_mesh.Store.Rounds.{Round, CheckResult}
use uptime_mesh.Store.States.{MonitorState, MonitorStateChange, HourlyStat}

-- The columns of `monitors` that these statements read or write; `none` in `channel_ids` is a text
-- that is no list.
pub record MonitorRow : Type 0 where
  pub id : String
  pub enabled : Bool
  pub channel_ids : Option (List String)
  pub updated_at : ℕ

pub record Database (F : Type 0) : Type 0 where
  pub monitors : List MonitorRow
  pub rounds : List (Round F)
  pub results : List (CheckResult F)
  pub hourly_stats : List (HourlyStat F)
  pub monitor_state_changes : List (MonitorStateChange F)
  pub monitor_states : List (MonitorState F)

-- What a statement returns: `nil`, `ErrNotFound`, or another error.
pub data Outcome : Type 0 where
  succeeded missing errored : Outcome

abbrev pub enabled_at : Bool → ℕ → MonitorRow → MonitorRow
enabled_at enabled now m = record m { enabled = enabled; updated_at = unix_sec now }

-- `UPDATE … WHERE id IN (…)`, of one id or of many.
abbrev pub update_monitors :
    (String → Bool) → (MonitorRow → MonitorRow) → List MonitorRow → List MonitorRow
update_monitors chosen f rows = map (λ m. if chosen m.id then f m else m) rows

unfoldable pub set_monitor_enabled :
    Bool → List MonitorRow → String → Bool → ℕ → List MonitorRow × Outcome
set_monitor_enabled fails rows id enabled now = if fails then (rows, errored) else (
  update_monitors (str_eq id) (enabled_at enabled now) rows,
  if count_if (λ m. str_eq id m.id) rows == 0 then missing else succeeded,
)

-- The second component is the number of monitors that were found, `none` for an error.
unfoldable pub set_monitors_enabled :
    Bool → List MonitorRow → List String → Bool → ℕ → List MonitorRow × Option ℕ
set_monitors_enabled fails rows [] enabled now = (rows, some 0)
set_monitors_enabled fails rows (id ∷ ids) enabled now =
    let chosen = λ (k : String). mem? k (id ∷ ids) in
    if fails then (rows, none) else (
      update_monitors chosen (enabled_at enabled now) rows,
      some (count_if (λ m. chosen m.id) rows),
    )

-- `DeleteMonitor`, of the row alone.
unfoldable pub delete_monitor : Bool → List MonitorRow → String → List MonitorRow × Outcome
delete_monitor fails rows id = if fails then (rows, errored) else (
  keep (λ m. not (str_eq id m.id)) rows,
  if count_if (λ m. str_eq id m.id) rows == 0 then missing else succeeded,
)

module _ {F : Type 0} where
  -- The six `DELETE` statements, for the monitors that are chosen.
  abbrev pub without : (String → Bool) → Database F → Database F
  without chosen t = record {
    monitors = keep (λ m. not (chosen m.id)) t.monitors;
    rounds = keep (λ r. not (chosen r.monitor_id)) t.rounds;
    results = keep (λ r. not (chosen r.monitor_id)) t.results;
    hourly_stats = keep (λ h. not (chosen h.monitor_id)) t.hourly_stats;
    monitor_state_changes = keep (λ c. not (chosen c.monitor_id)) t.monitor_state_changes;
    monitor_states = keep (λ st. not (chosen st.id)) t.monitor_states;
  }

  -- `fails` is whether any statement of the transaction or its end does.
  unfoldable pub delete_monitor_cascade : Bool → Database F → String → Database F × Outcome
  delete_monitor_cascade fails t id =
      if fails
      then (t, errored)
      else if count_if (λ m. str_eq id m.id) t.monitors == 0
      then (t, missing)
      else (without (str_eq id) t, succeeded)

  unfoldable pub delete_monitors_cascade : Bool → Database F → List String → Database F × Option ℕ
  delete_monitors_cascade fails t [] = (t, some 0)
  delete_monitors_cascade fails t (id ∷ ids) =
      let chosen = λ (k : String). mem? k (id ∷ ids) in
      if fails then (t, none) else (without chosen t, some (count_if (λ m. chosen m.id) t.monitors))

-- `hasString`
unfoldable pub has_string : List String → String → Bool
has_string [] want = false
has_string (v ∷ list) want = if str_eq v want then true else has_string list want

-- A row that is to be written: its id and its new channels.
pub record Pending : Type 0 where
  pub id : String
  pub channels : List String

-- Which steps fail. A row whose text is no list ends the reading with an error too.
pub record ChannelFaults : Type 0 where
  pub read_fails : Bool
  pub write_fails : Bool
  pub reload_fails : Bool

-- The loop over the rows: what is to be written, `none` for an error.
unfoldable pub collect :
    (List String → Option (List String)) → List MonitorRow → Option (List Pending)
collect change [] = some []
collect change (m ∷ rows) =
    let rest = collect change rows in
    elim m.channel_ids [
      | none ↦ none
      | some ids ↦ elim rest [
        | none ↦ none
        | some todo ↦ elim (change ids) [
          | none ↦ some todo
          | some channels ↦ some ((record { id = m.id; channels = channels }) ∷ todo)
        ]
      ]
    ]

-- The transaction: one `UPDATE` for each.
unfoldable pub write_channels : ℕ → List Pending → List MonitorRow → List MonitorRow
write_channels now [] rows = rows
write_channels now (item ∷ todo) rows = write_channels now todo (
    update_monitors (str_eq item.id)
      (λ m. record m { channel_ids = some item.channels; updated_at = unix_sec now }) rows)

-- The new channels of a row that is changed.
abbrev pub attached : String → List String → Option (List String)
attached channel ids = if has_string ids channel then none else some (ids ++ (channel ∷ []))

abbrev pub detached : String → List String → Option (List String)
detached channel ids =
    if has_string ids channel then some (keep (λ v. not (str_eq v channel)) ids) else none

-- What `AttachChannelToMonitors` returns: the rows that it changed, how many monitors there are (0
-- where the reading fails), and whether there is an error.
pub record Attached : Type 0 where
  pub changed_rows : List MonitorRow
  pub total : ℕ
  pub failed : Bool

abbrev pub pending_ids : List Pending → List String
pending_ids [] = []
pending_ids (item ∷ todo) = item.id ∷ pending_ids todo

unfoldable pub attach_channel_to_monitors :
    ChannelFaults → List MonitorRow → String → ℕ → List MonitorRow × Attached
attach_channel_to_monitors faults rows channel now =
    let n = length rows in
    let none_changed : ℕ → Bool → Attached =
      λ total failed. record { changed_rows = []; total = total; failed = failed } in
    if faults.read_fails
    then (rows, none_changed 0 true)
    else elim (collect (attached channel) rows) [
      | none ↦ (rows, none_changed 0 true)
      | some [] ↦ (rows, none_changed n false)
      | some (item ∷ todo) ↦
          let next = write_channels now (item ∷ todo) rows in
          let ids = pending_ids (item ∷ todo) in
          if faults.write_fails
          then (rows, none_changed n true)
          else if faults.reload_fails
          then (next, none_changed n true)
          else (
            next,
            record { changed_rows = keep (λ m. mem? m.id ids) next; total = n; failed = false },
          )
    ]

-- The rows, and whether there is an error.
unfoldable pub detach_channel_from_monitors :
    ChannelFaults → List MonitorRow → String → ℕ → List MonitorRow × Bool
detach_channel_from_monitors faults rows channel now =
    if faults.read_fails then (rows, true) else elim (collect (detached channel) rows) [
      | none ↦ (rows, true)
      | some todo ↦
          if faults.write_fails && ltb 0 (length todo)
          then (rows, true)
          else (write_channels now todo rows, false)
    ]
