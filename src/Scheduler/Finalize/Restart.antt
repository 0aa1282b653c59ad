-- ===== src/Scheduler/Finalize/Restart.antt =====
-- `finalize` (dashboard/internal/scheduler/scheduler.go) of a round that was handed to nobody, as
-- after a restart of the dashboard.
use uptime_mesh.Prelude.{
  ◌≡◌, refl, ◌∙◌, true, false, List, [], ◌∷◌, some, none, String, arith, eq_iff, mem?, count_if,
  Bool, Bool-cases, Option-cases, inl, inr, ◌⊎◌,
}
use uptime_mesh.Prelude.Float64.{Float64}
use uptime_mesh.Alert.{State, settled, apply}
use uptime_mesh.Store.Id.{id_from_hex}
use uptime_mesh.Store.Rounds.{Round, close_round}
use uptime_mesh.Store.States.{
  MonitorState, get_monitor_state, get-put_monitor_state, get_monitor_state-id,
}
use uptime_mesh.Scheduler.Round.{RoundSpec, RoundState, Aggregation, aggregate}
use uptime_mesh.Scheduler.Round.Missing.{reported}
use uptime_mesh.Scheduler.Round.Counts.{counted, aggregate_counts}
use uptime_mesh.Scheduler.Finalize.Missing.{dead, undispatched, groups_of, closing_open}
use uptime_mesh.Scheduler.Finalize.Once.{finalize-settle}
use uptime_mesh.Scheduler.Flight.{InFlightRound, is_dispatched}
use uptime_mesh.Scheduler.Monitor.{Monitor}
use uptime_mesh.Scheduler.World.{Scheduler, World}
use uptime_mesh.Scheduler.Finalize.{
  must_id, advance_alert, apply_alert, count_hour, first_closing, close_of, taken_out, settle,
  closing, finalize, judge, moved,
}

module _ {F : Type 0} (fl : Float64 F) where
  -- The alert state of every monitor, and the count of its failed rounds, are as before (a state
  -- that is not set counts as UP), and no flip is recorded.
  abbrev pub NoAlert : Scheduler F → Scheduler F → Type 0
  NoAlert s t =
      ((id : String)
        → let before = (get_monitor_state fl s.db.states id).0 in
          let after = (get_monitor_state fl t.db.states id).0 in
          (settled after.alert_state ≡ settled before.alert_state)
          × (after.consecutive ≡ before.consecutive))
      × (t.db.changes ≡ s.db.changes)

  judge_unknown :
      (cur : MonitorState F) (spec : RoundSpec F) (agg : Aggregation F)
      → agg.state ≡ some RoundState.unknown
      → judge fl cur spec agg
        ≡ (record { alert_state = settled cur.alert_state; consecutive = cur.consecutive }, none)
  unfolding judge apply
  judge_unknown cur spec agg h = ground arith

  advance_alert_unknown :
      (w : World F) (s : Scheduler F) (spec : RoundSpec F) (agg : Aggregation F) (m : Monitor F)
      → agg.state ≡ some RoundState.unknown
      → NoAlert s (advance_alert fl w s spec agg m (get_monitor_state fl s.db.states m.id).0)
  unfolding advance_alert settled
  advance_alert_unknown w s spec agg m h =
      let cur = (get_monitor_state fl s.db.states m.id).0 in
      let judged = judge_unknown cur spec agg h in
      let next : State = record {
        alert_state = settled cur.alert_state;
        consecutive = cur.consecutive;
      } in
      (
        λ id. ground (
          arith,
          get-put_monitor_state fl s.db.states (moved fl cur next agg) w.now id,
          get_monitor_state-id fl s.db.states m.id,
          eq_iff m.id id,
        ),
        ground arith,
      )

  NoAlert-refl : (s : Scheduler F) → NoAlert s s
  NoAlert-refl s = (λ id. (refl, refl), refl)

  apply_alert_cases :
      (w : World F) (s : Scheduler F) (spec : RoundSpec F) (agg : Aggregation F)
      → (apply_alert fl w s spec agg ≡ s)
        ⊎ ((m : Monitor F) × (apply_alert fl w s spec agg
              ≡ advance_alert fl w s spec agg m (get_monitor_state fl s.db.states m.id).0))
  unfolding apply_alert
  apply_alert_cases w s spec agg = elim (Option-cases (w.find_monitor (must_id spec.monitor_id))) [
    | inl e ↦ inl (ground arith)
    | inr (m, e) ↦ elim (Bool-cases w.state_read_fails) [
      | inl f ↦ inl (ground arith)
      | inr f ↦ inr (m, ground arith)
    ]
  ]

  apply_alert_unknown :
      (w : World F) (s : Scheduler F) (spec : RoundSpec F) (agg : Aggregation F)
      → agg.state ≡ some RoundState.unknown
      → NoAlert s (apply_alert fl w s spec agg)
  apply_alert_unknown w s spec agg h = elim (apply_alert_cases w s spec agg) [
    | inl e ↦ rw e (NoAlert-refl s)
    | inr (m, e) ↦ rw e (advance_alert_unknown w s spec agg m h)
  ]

  NoAlert-frame :
      (s s' t : Scheduler F)
      → s'.db.states ≡ s.db.states
      → s'.db.changes ≡ s.db.changes
      → NoAlert s' t
      → NoAlert s t
  NoAlert-frame s s' t e c (a, b) = (λ id. ground (arith, a id), b ∙ c)

  first_closing_unknown :
      (w : World F) (s : Scheduler F) (spec : RoundSpec F) (agg : Aggregation F)
      → agg.state ≡ some RoundState.unknown
      → NoAlert s (first_closing fl w s spec agg)
  unfolding first_closing count_hour
  first_closing_unknown w s spec agg h =
      NoAlert-frame s (count_hour fl w s spec agg) (first_closing fl w s spec agg) (ground arith)
        (ground arith) (apply_alert_unknown w (count_hour fl w s spec agg) spec agg h)

  settle_cases :
      (w : World F) (s : Scheduler F) (oid : String) (spec : RoundSpec F) (agg : Aggregation F)
      → (rows : List (Round F)) × ((settle fl w s oid spec agg ≡ taken_out fl s oid rows)
          ⊎ (settle fl w s oid spec agg ≡ first_closing fl w (taken_out fl s oid rows) spec agg))
  unfolding settle
  settle_cases w s oid spec agg = elim (Bool-cases w.close_fails) [
    | inl f ↦ (s.db.rounds, inl (ground arith))
    | inr f ↦
        let (rows, updated) = close_round s.db.rounds oid (close_of fl agg) w.now in
        elim (Bool-cases updated) [
          | inl g ↦ (rows, inr (ground arith))
          | inr g ↦ (rows, inl (ground arith))
        ]
  ]

  pub settle_unknown :
      (w : World F) (s : Scheduler F) (oid : String) (spec : RoundSpec F) (agg : Aggregation F)
      → agg.state ≡ some RoundState.unknown
      → NoAlert s (settle fl w s oid spec agg)
  settle_unknown w s oid spec agg h =
      let (rows, case) = settle_cases w s oid spec agg in
      elim case [
        | inl e ↦ rw e (NoAlert-refl s)
        | inr e ↦ rw e (first_closing_unknown w (taken_out fl s oid rows) spec agg h)
      ]

count_if_none :
    (p : String → Bool) (xs : List String)
    → ((k : String) → mem? k xs ≡ true → p k ≡ false)
    → count_if p xs ≡ 0
unfolding mem?
count_if_none p [] h = refl
count_if_none p (x ∷ xs) h =
    ground (arith, h x, eq_iff x x, count_if_none p xs (λ k m. h k (ground arith)))

-- The round has heard from none of its agents, and none of them was given its task.
abbrev pub Unheard : {F : Type 0} → InFlightRound F → Type 0
Unheard r =
    (k : String)
    → mem? k r.spec.agent_ids ≡ true
    → (reported r.results k ≡ false) × (is_dispatched r k ≡ false)

module _ {F : Type 0} (fl : Float64 F) where
  aggregate-Unheard :
      (w : World F) (r : InFlightRound F)
      → Unheard r
      → (aggregate fl r.spec r.results (dead w r) (undispatched w r)).state
        ≡ some RoundState.unknown
  aggregate-Unheard w r h =
      let (v, _, _, _, _, st) =
        aggregate_counts fl r.spec r.results (dead w r) (undispatched w r) in
      let none_counted =
        count_if_none (counted r.results (dead w r) (undispatched w r)) r.spec.agent_ids
          (λ k m. ground (arith, h k m, groups_of w r k m)) in
      ground arith

  -- An open round whose task was handed to no agent, and to which none has reported, is closed as
  -- UNKNOWN whether or not the agents answer pings by then, and its closing moves no alert: every
  -- monitor keeps its alert state and its count, and no flip is recorded.
  pub finalize-Unheard :
      (w : World F) (s : Scheduler F) (r : InFlightRound F)
      → r.closed ≡ false
      → Unheard r
      → NoAlert fl s (finalize fl w s r)
        × ((a : Aggregation F) × (closing fl w r ≡ some a) × (a.state ≡ some RoundState.unknown))
  unfolding finalize
  finalize-Unheard w s r c h =
      let a = aggregate fl r.spec r.results (dead w r) (undispatched w r) in
      let closes = closing_open fl w r c in
      let unknown = aggregate-Unheard w r h in
      (
        elim (Option-cases (id_from_hex r.spec.round_id)) [
          | inl e ↦ rw (e, finalize) (NoAlert-refl fl s)
          | inr (oid, e) ↦
              rw (finalize-settle fl w s r oid a e closes)
                (settle_unknown fl w s oid r.spec a unknown)
        ],
        (a, closes, unknown),
      )
