-- ===== src/Scheduler/Plan.antt =====
-- `planRound` of dashboard/internal/scheduler/scheduler.go: when a monitor gets its next round.
-- A time is the number of nanoseconds since a fixed origin, a duration a number of nanoseconds.
pub mod Grid
use uptime_mesh.Prelude.{
  ℕ, ◌+◌, ◌/◌, Bool, true, false, not, List, [], ◌∷◌, Option, none, some, ◌==◌, ltb, if◌then◌else◌,
}

-- `time.Second`
abbrev pub second : ℕ
second = 1_000_000_000

-- `due` is the planned time of the next round, `period` the period in seconds at which it was set.
pub record MonitorSlot : Type 0 where
  pub due : ℕ
  pub period : ℕ

-- The three results: whether to open a round now, its planned time, and the slot to keep.
pub record Plan : Type 0 where
  pub fire : Bool
  pub plan_at : ℕ
  pub next : MonitorSlot

-- `due, period` of a round that is opened at `now`, or that is noted as due.
abbrev anchored : ℕ → ℕ → MonitorSlot
anchored due period = record { due = due; period = period / second }

-- The first sight of a monitor, or its period has changed.
start : ℕ → ℕ → Bool → Plan
start now period inflight =
    if inflight
    then record { fire = false; plan_at = 0; next = anchored now period }
    else record { fire = true; plan_at = now; next = anchored (now + period) period }

-- The slot is known and its period the same.
advance : MonitorSlot → ℕ → ℕ → Bool → Plan
advance slot now period inflight =
    if ltb now slot.due
    then record { fire = false; plan_at = 0; next = slot }
    else if inflight
    then record { fire = false; plan_at = 0; next = slot }
    else if not (ltb now (slot.due + period))
    then record {
      fire = true;
      plan_at = now;
      next = record { due = now + period; period = slot.period };
    }
    else record {
      fire = true;
      plan_at = slot.due;
      next = record { due = slot.due + period; period = slot.period };
    }

unfoldable pub plan_round : Option MonitorSlot → ℕ → ℕ → Bool → Plan
unfolding start advance
plan_round none now period inflight = start now period inflight
plan_round (some slot) now period inflight =
    if not (slot.period == (period / second))
    then start now period inflight
    else advance slot now period inflight

-- One monitor over a sequence of scheduler ticks: each has its time, and whether a round of the
-- monitor is still open. The result is the planned times of the rounds opened and the slot kept.
pub record Tick : Type 0 where
  pub now : ℕ
  pub inflight : Bool

unfoldable pub plan_ticks : Option MonitorSlot → ℕ → List Tick → List ℕ × Option MonitorSlot
plan_ticks slot period [] = ([], slot)
plan_ticks slot period (t ∷ ts) =
    let p = plan_round slot t.now period t.inflight in
    let (plans, last) = plan_ticks (some p.next) period ts in
    (if p.fire then p.plan_at ∷ plans else plans, last)
