-- ===== src/Scheduler/Finalize/Once.antt =====
-- Two callers may close one round (the scheduler's tick, and the handler of the last result).
use uptime_mesh.Prelude.{
  ◌≡◌, refl, sym, ◌∙◌, false, List, some, none, String, arith, Option-cases, inl, inr,
}
use mathlib.Core.Path.{subst}
use uptime_mesh.Prelude.Float64.{Float64}
use uptime_mesh.Store.Id.{id_from_hex}
use uptime_mesh.Store.Rounds.{is_open, Round, close_round}
use uptime_mesh.Store.Rounds.Closing.{close_round-once}
use uptime_mesh.Scheduler.Round.{RoundSpec, Aggregation}
use uptime_mesh.Scheduler.Flight.{InFlightRound}
use uptime_mesh.Scheduler.Monitor.{Monitor}
use uptime_mesh.Store.States.{MonitorState, get_monitor_state}
use uptime_mesh.Scheduler.World.{Scheduler, World}
use uptime_mesh.Scheduler.Finalize.{
  must_id, advance_alert, apply_alert, count_hour, first_closing, close_of, taken_out, settle,
  closing, finalize,
}

module _ {F : Type 0} (fl : Float64 F) where
  advance_alert-rounds :
      (w : World F) (s : Scheduler F) (spec : RoundSpec F) (agg : Aggregation F) (m : Monitor F)
      (cur : MonitorState F)
      → (advance_alert fl w s spec agg m cur).db.rounds ≡ s.db.rounds
  unfolding advance_alert
  advance_alert-rounds w s spec agg m cur = ground arith

  apply_alert-rounds :
      (w : World F) (s : Scheduler F) (spec : RoundSpec F) (agg : Aggregation F)
      → (apply_alert fl w s spec agg).db.rounds ≡ s.db.rounds
  unfolding apply_alert
  apply_alert-rounds w s spec agg = elim (Option-cases (w.find_monitor (must_id spec.monitor_id))) [
    | inl e ↦ ground arith
    | inr (m, e) ↦
        ground
          (arith, advance_alert-rounds w s spec agg m (get_monitor_state fl s.db.states m.id).0)
  ]

  count_hour-rounds :
      (w : World F) (s : Scheduler F) (spec : RoundSpec F) (agg : Aggregation F)
      → (count_hour fl w s spec agg).db.rounds ≡ s.db.rounds
  unfolding count_hour
  count_hour-rounds w s spec agg = ground arith

  first_closing-rounds :
      (w : World F) (s : Scheduler F) (spec : RoundSpec F) (agg : Aggregation F)
      → (first_closing fl w s spec agg).db.rounds ≡ s.db.rounds
  unfolding first_closing
  first_closing-rounds w s spec agg =
      apply_alert-rounds w (count_hour fl w s spec agg) spec agg ∙ count_hour-rounds w s spec agg

  settle-rounds :
      (w : World F) (s : Scheduler F) (oid : String) (spec : RoundSpec F) (agg : Aggregation F)
      → w.close_fails ≡ false
      → (settle fl w s oid spec agg).db.rounds
        ≡ (close_round s.db.rounds oid (close_of fl agg) w.now).0
  unfolding settle
  settle-rounds w s oid spec agg h = ground (
    arith,
    first_closing-rounds w
        (taken_out fl s oid (close_round s.db.rounds oid (close_of fl agg) w.now).0) spec agg,
  )

  settle-nothing :
      (w : World F) (s : Scheduler F) (oid : String) (spec : RoundSpec F) (agg : Aggregation F)
      → close_round s.db.rounds oid (close_of fl agg) w.now ≡ (s.db.rounds, false)
      → let t = settle fl w s oid spec agg in (t.db ≡ s.db) × (t.finalized ≡ s.finalized)
  unfolding settle
  settle-nothing w s oid spec agg h = ground arith

  close_of-closed : (agg : Aggregation F) → is_open (close_of fl agg).state ≡ false
  unfolding close_of
  close_of-closed agg = ground arith

  settle_twice :
      (w w' : World F) (s : Scheduler F) (oid : String) (spec spec' : RoundSpec F)
      (agg agg' : Aggregation F)
      → w.close_fails ≡ false
      → let t = settle fl w s oid spec agg in
        let u = settle fl w' t oid spec' agg' in (u.db ≡ t.db) × (u.finalized ≡ t.finalized)
  settle_twice w w' s oid spec spec' agg agg' h =
      let rows = settle-rounds w s oid spec agg h in
      settle-nothing w' (settle fl w s oid spec agg) oid spec' agg' (
        subst (λ (rs : List (Round F)). close_round rs oid (close_of fl agg') w'.now ≡ (rs, false))
          (sym rows)
          (close_round-once s.db.rounds oid (close_of fl agg) (close_of fl agg') w.now w'.now
            (close_of-closed agg)))

  pub finalize-settle :
      (w : World F) (s : Scheduler F) (r : InFlightRound F) (oid : String) (a : Aggregation F)
      → id_from_hex r.spec.round_id ≡ some oid
      → closing fl w r ≡ some a
      → finalize fl w s r ≡ settle fl w s oid r.spec a
  unfolding finalize
  finalize-settle w s r oid a e c = rw (e, c, finalize)

  finalize_fault :
      (w : World F) (s : Scheduler F) (r : InFlightRound F)
      → closing fl w r ≡ none
      → finalize fl w s r ≡ s
  unfolding finalize
  finalize_fault w s r c = ground arith

  -- A round is accounted for once: after a call of `finalize` for a round of a valid id that
  -- closes it with an aggregation, and whose `CloseRound` statement did not fail, another call
  -- for a round of the same id, whatever it has seen, adds nothing to the tables (neither to the
  -- hour's counters nor to the alert states and their flips) and notifies nobody.
  pub finalize_once :
      (w w' : World F) (s : Scheduler F) (r r' : InFlightRound F) (oid : String) (a : Aggregation F)
      → id_from_hex r.spec.round_id ≡ some oid
      → id_from_hex r'.spec.round_id ≡ some oid
      → closing fl w r ≡ some a
      → w.close_fails ≡ false
      → let t = finalize fl w s r in
        let u = finalize fl w' t r' in (u.db ≡ t.db) × (u.finalized ≡ t.finalized)
  finalize_once w w' s r r' oid a e e' c h =
      rw (finalize-settle w s r oid a e c) (elim (Option-cases (closing fl w' r')) [
        | inl n ↦ rw (finalize_fault w' _ r' n) (refl, refl)
        | inr (a', n) ↦
            rw (finalize-settle w' _ r' oid a' e' n) (settle_twice w w' s oid r.spec r'.spec a a' h)
      ])
