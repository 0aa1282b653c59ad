-- ===== src/Scheduler/Cycle/Expiry.antt =====
-- The end of `cycle` (dashboard/internal/scheduler/scheduler.go): rounds and their deadlines.
use uptime_mesh.Prelude.{
  ◌≡◌, refl, false, List, [], ◌∷◌, Option, none, some, String, arith, lookup, delete, lookup-delete,
  is_some, if◌then◌else◌, ltb, eq_iff, str_eq, Option-cases, inl, inr, map, mem?,
}
use uptime_mesh.Prelude.Float64.{Float64}
use uptime_mesh.Store.Id.{id_from_hex}
use uptime_mesh.Store.Rounds.{close_round}
use uptime_mesh.Store.States.{MonitorState, get_monitor_state}
use uptime_mesh.Scheduler.Round.{RoundSpec, Aggregation, aggregate}
use uptime_mesh.Scheduler.Flight.{InFlightRound}
use uptime_mesh.Scheduler.Monitor.{Monitor}
use uptime_mesh.Scheduler.World.{Scheduler, World}
use uptime_mesh.Scheduler.Finalize.{
  must_id, advance_alert, apply_alert, count_hour, first_closing, close_of, settle, finalize,
  taken_out,
}
use uptime_mesh.Scheduler.Finalize.Missing.{closing_open, dead, undispatched}
use uptime_mesh.Scheduler.Registered.{Registered}
use uptime_mesh.Scheduler.Cycle.{expire_one, expire, expire_all}

module _ {F : Type 0} (fl : Float64 F) (w : World F) where
  advance_alert-open :
      (s : Scheduler F) (spec : RoundSpec F) (agg : Aggregation F) (m : Monitor F)
      (cur : MonitorState F)
      → (advance_alert fl w s spec agg m cur).rounds ≡ s.rounds
  unfolding advance_alert
  advance_alert-open s spec agg m cur = ground arith

  apply_alert-open :
      (s : Scheduler F) (spec : RoundSpec F) (agg : Aggregation F)
      → (apply_alert fl w s spec agg).rounds ≡ s.rounds
  unfolding apply_alert
  apply_alert-open s spec agg = elim (Option-cases (w.find_monitor (must_id spec.monitor_id))) [
    | inl e ↦ ground arith
    | inr (m, e) ↦
        ground (arith, advance_alert-open s spec agg m (get_monitor_state fl s.db.states m.id).0)
  ]

  settle-open :
      (s : Scheduler F) (oid : String) (spec : RoundSpec F) (agg : Aggregation F)
      → (settle fl w s oid spec agg).rounds ≡ delete oid s.rounds
  unfolding settle first_closing count_hour
  settle-open s oid spec agg =
      let rows = (close_round s.db.rounds oid (close_of fl agg) w.now).0 in
      ground (arith, apply_alert-open (count_hour fl w (taken_out fl s oid rows) spec agg) spec agg)

  pub finalize-open :
      (s : Scheduler F) (r : InFlightRound F) (k : String)
      → id_from_hex r.spec.round_id ≡ some k
      → r.closed ≡ false
      → (finalize fl w s r).rounds ≡ delete k s.rounds
  unfolding finalize
  finalize-open s r k i c =
      let o = closing_open fl w r c in
      ground (
        arith,
        i,
        o,
        settle-open s k r.spec (aggregate fl r.spec r.results (dead w r) (undispatched w r)),
      )

  -- The round under an id that is dealt with is still there only if its deadline is not over.
  abbrev pub kept : Option (InFlightRound F) → Option (InFlightRound F)
  kept none = none
  kept (some r) = if ltb r.spec.deadline w.now then none else some r

  expire_one-lookup :
      (s : Scheduler F) (k j : String)
      → Registered s
      → lookup j (expire_one fl w s (lookup k s.rounds)).rounds
        ≡ (if str_eq k j then kept (lookup j s.rounds) else lookup j s.rounds)
  unfolding expire_one
  expire_one-lookup s k j h = elim (Option-cases (lookup k s.rounds)) [
    | inl e ↦ ground (arith, eq_iff k j)
    | inr (r, e) ↦
        let (i, c) = h k r e in
        ground (arith, eq_iff k j, finalize-open s r k i c, lookup-delete k j s.rounds)
  ]

  -- What is still to be dealt with may change nothing else.
  pub Registered-expire_one :
      (s : Scheduler F) (k : String)
      → Registered s
      → Registered (expire_one fl w s (lookup k s.rounds))
  Registered-expire_one s k h j r e = h j r (ground (arith, expire_one-lookup s k j h))

  expire-lookup :
      (s : Scheduler F) (ids : List String) (j : String)
      → Registered s
      → lookup j (expire fl w s ids).rounds
        ≡ (if mem? j ids then kept (lookup j s.rounds) else lookup j s.rounds)
  unfolding expire mem?
  expire-lookup s [] j h = refl
  expire-lookup s (k ∷ ids) j h = ground (
    arith,
    expire_one-lookup s k j h,
    expire-lookup (expire_one fl w s (lookup k s.rounds)) ids j (Registered-expire_one s k h),
  )

  lookup-mem? :
      (rs : List (String × InFlightRound F)) (j : String)
      → mem? j (map (λ (id, r). id) rs) ≡ is_some (lookup j rs)
  unfolding lookup mem?
  lookup-mem? [] j = refl
  lookup-mem? ((k, r) ∷ rs) j = ground (arith, lookup-mem? rs j)

  -- From a map whose rounds are open and stand under their own ids, the end of a tick leaves
  -- exactly the rounds whose deadline is not over, each as it was: a round past its deadline is
  -- finalized on the first tick that sees it, whatever statements fail on the way.
  pub expire_all-lookup :
      (s : Scheduler F) (j : String)
      → Registered s
      → lookup j (expire_all fl w s).rounds ≡ kept (lookup j s.rounds)
  unfolding expire_all
  expire_all-lookup s j h =
      ground (arith, expire-lookup s (map (λ (id, r). id) s.rounds) j h, lookup-mem? s.rounds j)
