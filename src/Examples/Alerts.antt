-- ===== src/Examples/Alerts.antt =====
-- Runs of the alert machine: two rounds below a threshold of 50, one with no sample between them.
use uptime_mesh.Prelude.{ℕ, ◌≡◌, refl, true, false, List, [], ◌∷◌, arith, leb, if◌then◌else◌}
use uptime_mesh.Prelude.Float64.{whole}
use uptime_mesh.Alert.{AlertState, RoundOutcome, State, EventType, settled, flip, apply, run}
use uptime_mesh.Alert.Trace.{trailing, run_state}
use uptime_mesh.Alert.Events.{Flips, run-Flips}

abbrev healthy : State
healthy = record { alert_state = AlertState.up; consecutive = 0 }

abbrev low : RoundOutcome ℕ
low = record { valid = true; value = 20; success_rate = 20 }

abbrev empty : RoundOutcome ℕ
empty = record { valid = false; value = 0; success_rate = 0 }

abbrev high : RoundOutcome ℕ
high = record { valid = true; value = 90; success_rate = 90 }

abbrev bad_night : List (RoundOutcome ℕ)
bad_night = low ∷ empty ∷ low ∷ []

goes_down : run whole healthy bad_night 50 2 ≡ (
  record { alert_state = AlertState.down; consecutive = 2 },
  flip whole EventType.event_down low ∷ [],
)
unfolding run apply
goes_down = refl

comes_back :
    (run whole healthy (low ∷ low ∷ high ∷ []) 50 2).0
    ≡ record { alert_state = AlertState.up; consecutive = 0 }
unfolding run apply
comes_back = refl

run_state_example :
    let t = (run whole healthy bad_night 50 2).0 in
    (t.consecutive ≡ trailing whole 0 bad_night 50)
    × (settled t.alert_state
        ≡ (if leb 2 (trailing whole 0 bad_night 50) then AlertState.down else AlertState.up))
unfolding settled
run_state_example = run_state whole healthy bad_night 50 2 (omega arith) refl

run-Flips_example :
    let (t, evs) = run whole healthy bad_night 50 2 in
    Flips whole 50 (settled AlertState.up) evs (settled t.alert_state)
run-Flips_example = run-Flips whole healthy bad_night 50 2
