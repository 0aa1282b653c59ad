-- ===== src/Alert/Trace.antt =====
-- The state of the alert machine (dashboard/internal/alert/alert.go) and the rounds it has seen.
use uptime_mesh.Prelude.{ℕ, ◌+◌, ◌<◌, ◌≡◌, refl, List, [], ◌∷◌, arith, leb, if◌then◌else◌}
use uptime_mesh.Prelude.Float64.{Float64}
use uptime_mesh.Alert.{AlertState, RoundOutcome, State, settled, apply, run}

module _ {F : Type 0} (fl : Float64 F) where
  -- The row of rounds below the threshold after one more round.
  abbrev row_step : ℕ → RoundOutcome F → F → ℕ
  row_step c ro threshold = if ro.valid then (if fl.lt ro.value threshold then c + 1 else 0) else c

  -- How many rounds in a row, up to the last, were below the threshold; `c` of them are known
  -- from before. A round with no valid sample neither counts nor breaks the row.
  abbrev pub trailing : ℕ → List (RoundOutcome F) → F → ℕ
  trailing c [] threshold = c
  trailing c (ro ∷ ros) threshold = trailing (row_step c ro threshold) ros threshold

  apply-row :
      (s : State) (ro : RoundOutcome F) (threshold : F) (n : ℕ)
      → 0 < n
      → settled s.alert_state ≡ (if leb n s.consecutive then AlertState.down else AlertState.up)
      → let t = (apply fl s ro threshold n).0 in
        (t.consecutive ≡ row_step s.consecutive ro threshold)
        × (settled t.alert_state ≡ (if leb n t.consecutive then AlertState.down else AlertState.up))
  unfolding apply
  apply-row s ro threshold n h v = ground arith

  -- With N at least 1, and from a state that is DOWN exactly if its count has reached N: after any
  -- rounds the count is the length of the last unbroken row of rounds below the threshold (rounds
  -- with no valid sample left out), and the monitor is DOWN exactly if that row has N rounds.
  pub run_state :
      (s : State) (ros : List (RoundOutcome F)) (threshold : F) (n : ℕ)
      → 0 < n
      → settled s.alert_state ≡ (if leb n s.consecutive then AlertState.down else AlertState.up)
      → let t = (run fl s ros threshold n).0 in
        (t.consecutive ≡ trailing s.consecutive ros threshold)
        × (settled t.alert_state ≡ (
            if leb n (trailing s.consecutive ros threshold)
            then AlertState.down
            else AlertState.up))
  unfolding run
  run_state s [] threshold n h v = (refl, v)
  run_state s (ro ∷ ros) threshold n h v =
      let (c, w) = apply-row s ro threshold n h v in
      rw (← c) (run_state (apply fl s ro threshold n).0 ros threshold n h w)
