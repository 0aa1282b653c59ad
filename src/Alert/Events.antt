-- ===== src/Alert/Events.antt =====
-- The events of the alert machine (dashboard/internal/alert/alert.go), and rounds with no sample.
use uptime_mesh.Prelude.{
  ℕ, ◌≡◌, refl, ◌≢◌, Bool, true, false, List, [], ◌∷◌, Option, none, some, arith, keep,
}
use uptime_mesh.Prelude.Float64.{Float64}
use uptime_mesh.Alert.{
  AlertState, RoundOutcome, State, EventType, event_down, event_up, Event, settled, apply, run,
}

abbrev pub is_event_down : EventType → Bool
is_event_down event_down = true
is_event_down event_up = false

module _ {F : Type 0} (fl : Float64 F) where
  -- The events lead from one state to another: each is a flip of the state before it, and carries
  -- a value on its own side of the threshold.
  abbrev pub Flips : F → AlertState → List (Event F) → AlertState → Type 0
  Flips threshold a [] b = a ≡ b
  Flips threshold AlertState.unset (e ∷ es) b = ⊥
  Flips threshold AlertState.up (e ∷ es) b =
      (e.type ≡ event_down)
      × (fl.lt e.value threshold ≡ true)
      × Flips threshold AlertState.down es b
  Flips threshold AlertState.down (e ∷ es) b =
      (e.type ≡ event_up) × (fl.lt e.value threshold ≡ false) × Flips threshold AlertState.up es b

  abbrev Emits : F → AlertState → Option (Event F) → AlertState → Type 0
  Emits threshold a none b = a ≡ b
  Emits threshold AlertState.unset (some e) b = ⊥
  Emits threshold AlertState.up (some e) b =
      (e.type ≡ event_down) × (fl.lt e.value threshold ≡ true) × (b ≡ AlertState.down)
  Emits threshold AlertState.down (some e) b =
      (e.type ≡ event_up) × (fl.lt e.value threshold ≡ false) × (b ≡ AlertState.up)

  apply-Emits :
      (s : State) (ro : RoundOutcome F) (threshold : F) (n : ℕ)
      → let (t, ev) = apply fl s ro threshold n in
        Emits threshold (settled s.alert_state) ev (settled t.alert_state)
  unfolding apply
  apply-Emits s ro threshold n = ground arith

  Emits-Flips :
      (threshold : F) (a b c : AlertState) (ev : Option (Event F)) (evs : List (Event F))
      → Emits threshold a ev b
      → Flips threshold b evs c
      → Flips threshold a (elim ev [ none ↦ evs | some e ↦ e ∷ evs ]) c
  Emits-Flips threshold a b c none evs p q = rw p q
  Emits-Flips threshold AlertState.up b c (some e) evs (t, v, d) q = (t, v, rw d at q)
  Emits-Flips threshold AlertState.down b c (some e) evs (t, v, d) q = (t, v, rw d at q)
  Emits-Flips threshold AlertState.unset b c (some e) evs p q = absurd p

  -- Over any rounds the events are exactly the flips between the state before and the state after
  -- (a state that is not set counts as UP): they alternate, the first leaves the state before, a
  -- DOWN event carries a value below the threshold and an UP event one that is not.
  pub run-Flips :
      (s : State) (ros : List (RoundOutcome F)) (threshold : F) (n : ℕ)
      → let (t, evs) = run fl s ros threshold n in
        Flips threshold (settled s.alert_state) evs (settled t.alert_state)
  unfolding run
  run-Flips s [] threshold n = refl
  run-Flips s (ro ∷ ros) threshold n =
      let (t, ev) = apply fl s ro threshold n in
      Emits-Flips threshold (settled s.alert_state) (settled t.alert_state) _ ev _
        (apply-Emits s ro threshold n) (run-Flips t ros threshold n)

  apply-settled :
      (s : State) (ro : RoundOutcome F) (threshold : F) (n : ℕ)
      → s.alert_state ≢ AlertState.unset
      → (apply fl s ro threshold n).0.alert_state ≢ AlertState.unset
  unfolding apply
  apply-settled s ro threshold n h = ground arith

  apply-invalid :
      (s : State) (ro : RoundOutcome F) (threshold : F) (n : ℕ)
      → ro.valid ≡ false
      → s.alert_state ≢ AlertState.unset
      → apply fl s ro threshold n ≡ (s, none)
  unfolding apply
  apply-invalid s ro threshold n v h = ground arith

  -- From a state that is set, rounds with no valid sample change neither the state after the rounds
  -- nor the events on the way.
  pub run-keep :
      (s : State) (ros : List (RoundOutcome F)) (threshold : F) (n : ℕ)
      → s.alert_state ≢ AlertState.unset
      → run fl s ros threshold n ≡ run fl s (keep (λ ro. ro.valid) ros) threshold n
  unfolding run
  run-keep s [] threshold n h = refl
  run-keep s (ro ∷ ros) threshold n h = ground (
    arith,
    apply-invalid s ro threshold n,
    run-keep (apply fl s ro threshold n).0 ros threshold n (apply-settled s ro threshold n h),
  )
