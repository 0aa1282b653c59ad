-- ===== src/Alert.antt =====
-- dashboard/internal/alert/alert.go: the alert state machine of a monitor. The persisted text
-- `AlertState` holds nothing (no row yet), "UP" or "DOWN". A round's value is a double, of which
-- the machine only asks whether it lies below the threshold.
pub mod Trace
pub mod Events
use uptime_mesh.Prelude.{
  ℕ, ◌+◌, Bool, true, false, ◌&&◌, List, [], ◌∷◌, Option, none, some, String, leb, if◌then◌else◌,
}
use uptime_mesh.Prelude.Float64.{Float64}

pub data AlertState : Type 0 where
  unset up down : AlertState

pub record RoundOutcome (F : Type 0) : Type 0 where
  pub valid : Bool
  pub value : F
  pub success_rate : F

pub record State : Type 0 where
  pub alert_state : AlertState
  pub consecutive : ℕ

pub data EventType : Type 0 where
  event_down event_up : EventType

-- The fields below `value` other than the rate are filled in by the scheduler.
pub record Event (F : Type 0) : Type 0 where
  pub type : EventType
  pub round_id : String
  pub value : F
  pub success_rate : F
  pub from_state : AlertState
  pub changed_at : ℕ
  pub duration_sec : ℕ

module _ {F : Type 0} (fl : Float64 F) where
  unfoldable pub breached : RoundOutcome F → F → Bool
  breached ro threshold = ro.valid && fl.lt ro.value threshold

  -- `&Event{Type: …, Value: …, SuccessRate: …}`
  unfoldable pub flip : EventType → RoundOutcome F → Event F
  flip t ro = record {
    type = t;
    round_id = "";
    value = ro.value;
    success_rate = ro.success_rate;
    from_state = AlertState.unset;
    changed_at = 0;
    duration_sec = 0;
  }

-- `if next.AlertState == "" { next.AlertState = Up }`
unfoldable pub settled : AlertState → AlertState
settled AlertState.unset = AlertState.up
settled AlertState.up = AlertState.up
settled AlertState.down = AlertState.down

abbrev pub is_up : AlertState → Bool
is_up AlertState.up = true
is_up _ = false

abbrev pub is_down : AlertState → Bool
is_down AlertState.down = true
is_down _ = false

module _ {F : Type 0} (fl : Float64 F) where
  -- A valid round below the threshold; `c` is the count with this round in it.
  on_breach : AlertState → ℕ → RoundOutcome F → ℕ → State × Option (Event F)
  unfolding flip
  on_breach a c ro n =
      if is_up a && leb n c
      then (
        record { alert_state = AlertState.down; consecutive = c },
        some (flip fl EventType.event_down ro),
      )
      else (record { alert_state = a; consecutive = c }, none)

  -- A valid round that reaches the threshold.
  on_pass : AlertState → RoundOutcome F → State × Option (Event F)
  unfolding flip
  on_pass a ro =
      if is_down a
      then (
        record { alert_state = AlertState.up; consecutive = 0 },
        some (flip fl EventType.event_up ro),
      )
      else (record { alert_state = a; consecutive = 0 }, none)

  unfoldable pub apply : State → RoundOutcome F → F → ℕ → State × Option (Event F)
  unfolding settled breached on_breach on_pass
  apply s ro threshold n =
      let a = settled s.alert_state in
      if ro.valid
      then if breached fl ro threshold then on_breach a (s.consecutive + 1) ro n else on_pass a ro
      else (record s { alert_state = a }, none)

  -- The rounds of a monitor in their order, its configuration unchanged: the state that is
  -- persisted after the last, and the events on the way.
  unfoldable pub run : State → List (RoundOutcome F) → F → ℕ → State × List (Event F)
  run s [] threshold n = (s, [])
  run s (ro ∷ ros) threshold n =
      let (t, ev) = apply s ro threshold n in
      let (u, evs) = run t ros threshold n in (u, elim ev [ none ↦ evs | some e ↦ e ∷ evs ])
