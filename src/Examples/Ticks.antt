-- ===== src/Examples/Ticks.antt =====
-- A monitor of a period of 60 seconds over some late ticks, and a tick after a deadline.
use uptime_mesh.Prelude.{
  ℕ, ◌≡◌, refl, false, List, [], ◌∷◌, none, some, arith, lookup, eq_iff, str_eq, ap, Bool-cases,
  inl, inr,
}
use uptime_mesh.Store.Id.{id_from_hex}
use uptime_mesh.Scheduler.Plan.{MonitorSlot, Tick, plan_round, plan_ticks}
use uptime_mesh.Scheduler.Plan.Grid.{
  Spaced, plan_ticks-Spaced, Steady, OnGrid, last_tick, first_seen-OnGrid,
}
use uptime_mesh.Scheduler.World.{World}
use uptime_mesh.Examples.Data.{the_round, world, flight, scheduler}

abbrev minute : ℕ
minute = 60_000_000_000

-- The second tick comes half a second late for its round, the fourth a second.
abbrev ticks : List Tick
ticks =
    record { now = 130_000_000_000; inflight = false }
    ∷ record { now = 160_500_000_000; inflight = false }
    ∷ record { now = 219_000_000_000; inflight = false }
    ∷ record { now = 221_000_000_000; inflight = false }
    ∷ []

no_drift :
    (plan_ticks none minute (record { now = 100_000_000_000; inflight = false } ∷ ticks)).0
    ≡ 100_000_000_000 ∷ 160_000_000_000 ∷ 220_000_000_000 ∷ []
unfolding plan_ticks plan_round
no_drift = refl

ticks-Steady : Steady minute 100_000_000_000 ticks
ticks-Steady = (
  omega arith,
  omega arith,
  refl,
  (
    omega arith,
    omega arith,
    refl,
    (omega arith, omega arith, refl, (omega arith, omega arith, refl, tt)),
  ),
)

first_seen-OnGrid_example :
    OnGrid minute 100_000_000_000
      (last_tick 100_000_000_000 ticks)
      (plan_ticks none minute (record { now = 100_000_000_000; inflight = false } ∷ ticks)).0
first_seen-OnGrid_example =
    first_seen-OnGrid minute 100_000_000_000 ticks (omega arith) ticks-Steady

abbrev slot : MonitorSlot
slot = record { due = 160_000_000_000; period = 60 }

plan_ticks-Spaced_example : Spaced minute slot.due (plan_ticks (some slot) minute ticks).0
plan_ticks-Spaced_example = plan_ticks-Spaced slot minute ticks refl

abbrev later : World ℕ
later = record world { now = 630_000_000_000 }

pub flight-Registered :
    (k : _) (r : _)
    → lookup k scheduler.rounds ≡ some r
    → (id_from_hex r.spec.round_id ≡ some k) × (r.closed ≡ false)
unfolding lookup id_from_hex
flight-Registered k r h = elim (Bool-cases (str_eq the_round k)) [
  | inl e ↦
      let same : the_round ≡ k = (eq_iff the_round k).0 e in
      let found : some flight ≡ some r = rw (← same) at h in
      let it : flight ≡ r = ap (λ o. elim o [ none ↦ flight | some x ↦ x ]) found in
      rw (← same, ← it) (refl, refl)
  | inr e ↦ absurd (ground arith)
]
