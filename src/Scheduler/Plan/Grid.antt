-- ===== src/Scheduler/Plan/Grid.antt =====
-- The planned times of a monitor (`planRound`, dashboard/internal/scheduler/scheduler.go) over ticks.
use uptime_mesh.Prelude.{
  ℕ, zero, suc, ◌+◌, ◌*◌, ◌/◌, ◌≤◌, ◌<◌, ◌≡◌, refl, Bool, true, false, List, [], ◌∷◌, none, some,
  arith, ap, ◌∙◌, length, ltb, not, if◌then◌else◌, Bool-cases, inl, inr,
}
use mathlib.Core.Path.{subst}
use uptime_mesh.Scheduler.Plan.{second, MonitorSlot, plan_round, Tick, plan_ticks}

-- Each planned time is at least a period after the one before it, the first not before `lo`.
abbrev pub Spaced : ℕ → ℕ → List ℕ → Type 0
Spaced period lo [] = Unit
Spaced period lo (p ∷ ps) = (lo ≤ p) × Spaced period (p + period) ps

-- What one tick does to a slot that is set for this period.
plan_round-step :
    (slot : MonitorSlot) (now period : ℕ) (inflight : Bool)
    → slot.period ≡ period / second
    → let p = plan_round (some slot) now period inflight in
      (p.next.period ≡ period / second)
      × (p.fire ≡ false → p.next ≡ slot)
      × (p.fire ≡ true → (slot.due ≤ p.plan_at) × (p.next.due ≡ p.plan_at + period))
unfolding plan_round
plan_round-step slot now period inflight e = ground arith

-- From a slot that is set for this period, whatever the ticks, and whatever rounds are still
-- open at them: two rounds of a monitor are planned at least a period apart, and the first not
-- before the slot's due time.
pub plan_ticks-Spaced :
    (slot : MonitorSlot) (period : ℕ) (ts : List Tick)
    → slot.period ≡ period / second
    → Spaced period slot.due (plan_ticks (some slot) period ts).0
unfolding plan_ticks
plan_ticks-Spaced slot period [] e = tt
plan_ticks-Spaced slot period (t ∷ ts) e =
    let p = plan_round (some slot) t.now period t.inflight in
    let (set, idle, fired) = plan_round-step slot t.now period t.inflight e in
    let rest = plan_ticks-Spaced p.next period ts set in
    elim (Bool-cases p.fire) [
      | inl f ↦ rw f (
        (fired f).0,
        subst (λ d. Spaced period d (plan_ticks (some p.next) period ts).0) (fired f).1 rest,
      )
      | inr f ↦
          rw f
            (subst (λ s. Spaced period s.due (plan_ticks (some p.next) period ts).0) (idle f) rest)
    ]

-- `n` planned times from `d` on, a period apart.
abbrev pub progression : ℕ → ℕ → ℕ → List ℕ
progression d period zero = []
progression d period (suc n) = d ∷ progression (d + period) period n

-- Ticks no further apart than a period, the first after `last`, with no round still open.
abbrev pub Steady : ℕ → ℕ → List Tick → Type 0
Steady period last [] = Unit
Steady period last (t ∷ ts) =
    (last ≤ t.now) × (t.now ≤ last + period) × (t.inflight ≡ false) × Steady period t.now ts

abbrev pub last_tick : ℕ → List Tick → ℕ
last_tick last [] = last
last_tick last (t ∷ ts) = last_tick t.now ts

-- The planned times are the progression from `d`, as many as there are grid points up to `last`.
abbrev pub OnGrid : ℕ → ℕ → ℕ → List ℕ → Type 0
OnGrid period d last ps =
    (ps ≡ progression d period (length ps))
    × (last < d + length ps * period)
    × (d + length ps * period ≤ last + period)

plan_round-on_time :
    (slot : MonitorSlot) (now period : ℕ) (inflight : Bool)
    → slot.period ≡ period / second
    → inflight ≡ false
    → now < slot.due + period
    → let p = plan_round (some slot) now period inflight in
      (p.fire ≡ not (ltb now slot.due))
      × (p.next.period ≡ period / second)
      × (p.next.due ≡ (if p.fire then slot.due + period else slot.due))
      × (p.fire ≡ true → p.plan_at ≡ slot.due)
unfolding plan_round
plan_round-on_time slot now period inflight e i h = ground arith

OnGrid-cons :
    (d period last : ℕ) (ps : List ℕ)
    → OnGrid period (d + period) last ps
    → OnGrid period d last (d ∷ ps)
OnGrid-cons d period last ps (eq, after, upto) = (ap (◌∷◌ d) eq, omega arith, omega arith)

slot-OnGrid :
    (slot : MonitorSlot) (period last : ℕ) (ts : List Tick)
    → 0 < period
    → slot.period ≡ period / second
    → last < slot.due
    → slot.due ≤ last + period
    → Steady period last ts
    → OnGrid period slot.due (last_tick last ts) (plan_ticks (some slot) period ts).0
unfolding plan_ticks
slot-OnGrid slot period last [] h e l u s = (refl, omega arith, omega arith)
slot-OnGrid slot period last (t ∷ ts) h e l u (a, b, i, s) =
    let p = plan_round (some slot) t.now period t.inflight in
    let rest = (plan_ticks (some p.next) period ts).0 in
    let (f, set, next, at) = plan_round-on_time slot t.now period t.inflight e i (omega arith) in
    let ih = slot-OnGrid p.next period t.now ts h set in
    elim (Bool-cases (ltb t.now slot.due)) [
      | inl early ↦
          let idle : p.fire ≡ false = f ∙ ap not early in
          let same : p.next.due ≡ slot.due = rw idle at next in
          rw idle (
            subst (λ d. OnGrid period d (last_tick t.now ts) rest) same
              (ih (ground arith) (omega arith) s))
      | inr late ↦
          let fired : p.fire ≡ true = f ∙ ap not late in
          let moved : p.next.due ≡ slot.due + period = rw fired at next in
          let due_now : slot.due ≤ t.now = ground arith in
          rw (fired, at fired)
            (OnGrid-cons slot.due period (last_tick t.now ts) rest (
              subst (λ d. OnGrid period d (last_tick t.now ts) rest) moved
                (ih (omega arith) (omega arith) s)))
    ]

-- A monitor seen for the first time at `t`, of a positive period, then ticks no further apart
-- than that and no round still open at any of them: the rounds are planned exactly at `t`, `t` +
-- period, `t` + 2 period and so on up to the last tick, however late each tick is. No delay is
-- carried over.
pub first_seen-OnGrid :
    (period t : ℕ) (ts : List Tick)
    → 0 < period
    → Steady period t ts
    → OnGrid period t
        (last_tick t ts)
        (plan_ticks none period (record { now = t; inflight = false } ∷ ts)).0
unfolding plan_ticks plan_round
first_seen-OnGrid period t ts h s = OnGrid-cons t period (last_tick t ts) _ (
    slot-OnGrid (record { due = t + period; period = period / second }) period t ts h refl
      (omega arith) (omega arith) s)
