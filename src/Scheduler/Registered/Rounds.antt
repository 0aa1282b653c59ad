-- ===== src/Scheduler/Registered/Rounds.antt =====
-- Changes of the map of open rounds of dashboard/internal/scheduler/scheduler.go.
use uptime_mesh.Prelude.{
  ◌≡◌, false, some, String, arith, insert, delete, lookup-insert, lookup-delete, eq_iff,
}
use uptime_mesh.Prelude.Float64.{Float64}
use uptime_mesh.Store.Id.{id_from_hex}
use uptime_mesh.Scheduler.Round.{Sample}
use uptime_mesh.Scheduler.Flight.{InFlightRound, add_result}
use uptime_mesh.Scheduler.World.{Scheduler, World}
use uptime_mesh.Scheduler.Finalize.{finalize}
use uptime_mesh.Scheduler.Cycle.Expiry.{finalize-open}
use uptime_mesh.Scheduler.Registered.{Registered}

module _ {F : Type 0} where
  -- The invariant sees the map only.
  pub Registered-same : (s t : Scheduler F) → t.rounds ≡ s.rounds → Registered s → Registered t
  Registered-same s t e h k r f = ground (arith, e, h k r)

  pub Registered-insert :
      (s t : Scheduler F) (k : String) (r : InFlightRound F)
      → t.rounds ≡ insert k r s.rounds
      → id_from_hex r.spec.round_id ≡ some k
      → r.closed ≡ false
      → Registered s
      → Registered t
  Registered-insert s t k r e i c h j x f =
      ground (arith, e, lookup-insert k j r s.rounds, h j x, eq_iff k j)

  pub Registered-delete :
      (s t : Scheduler F) (k : String) → t.rounds ≡ delete k s.rounds → Registered s → Registered t
  Registered-delete s t k e h j x f =
      ground (arith, e, lookup-delete k j s.rounds, h j x, eq_iff k j)

  pub add_result-kept :
      (r : InFlightRound F) (id : String) (a : Sample F)
      → ((add_result r id a).0.spec ≡ r.spec) × ((add_result r id a).0.closed ≡ r.closed)
  unfolding add_result
  add_result-kept r id a = ground arith

module _ {F : Type 0} (fl : Float64 F) (w : World F) where
  pub Registered-finalize :
      (s : Scheduler F) (r : InFlightRound F) (k : String)
      → id_from_hex r.spec.round_id ≡ some k
      → r.closed ≡ false
      → Registered s
      → Registered (finalize fl w s r)
  Registered-finalize s r k i c h =
      Registered-delete s (finalize fl w s r) k (finalize-open fl w s r k i c) h
