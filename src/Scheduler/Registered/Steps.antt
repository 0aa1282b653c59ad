-- ===== src/Scheduler/Registered/Steps.antt =====
-- `handleResult` and `AgentOnline` (dashboard/internal/scheduler/scheduler.go) and the open rounds.
use uptime_mesh.Prelude.{
  ◌≡◌, refl, false, List, [], ◌∷◌, some, String, arith, lookup, insert, str_eq, Bool-cases,
  Option-cases, inl, inr,
}
use uptime_mesh.Prelude.Float64.{Float64}
use uptime_mesh.Store.Id.{id_from_hex}
use uptime_mesh.Store.Rounds.{CheckResult}
use uptime_mesh.Scheduler.Flight.{InFlightRound, Envelope, mark_dispatched, add_result}
use uptime_mesh.Scheduler.World.{Scheduler, World}
use uptime_mesh.Scheduler.Intake.{
  ProbeResultPayload, row_of, sample_of, store_row, intake_on_time, intake, handle_result,
}
use uptime_mesh.Scheduler.Dispatch.{send_task, send_all, resend, resend_all, agent_online}
use uptime_mesh.Scheduler.Registered.{Registered}
use uptime_mesh.Scheduler.Registered.Rounds.{
  Registered-same, Registered-insert, Registered-finalize, add_result-kept,
}

module _ {F : Type 0} (fl : Float64 F) (w : World F) where
  pub store_row-rounds :
      (s : Scheduler F) (row : CheckResult F) → (store_row fl w s row).rounds ≡ s.rounds
  unfolding store_row
  store_row-rounds s row = ground arith

  -- The end of `intake_on_time` is a case of the agents that are left.
  intake_on_time-Registered :
      (s : Scheduler F) (id : String) (r : InFlightRound F) (row : CheckResult F)
      → id_from_hex r.spec.round_id ≡ some id
      → r.closed ≡ false
      → Registered s
      → Registered (intake_on_time fl w s id r row)
  unfolding intake_on_time
  intake_on_time-Registered s id r row i c h j x f =
      let kept = record s { rounds = insert id r s.rounds } in
      let held : Registered kept = Registered-insert s kept id r refl i c h in
      let stored =
        Registered-same kept (store_row fl w kept row) (store_row-rounds kept row) held in
      let done = Registered-finalize fl w (store_row fl w kept row) r id i c stored in
      ground (arith, held j x, stored j x, done j x)

  intake-Registered :
      (s : Scheduler F) (id monitor_id agent : String) (p : ProbeResultPayload F)
      → Registered s
      → Registered (intake fl w s id monitor_id agent p)
  unfolding intake
  intake-Registered s id monitor_id agent p h j x f = elim (Option-cases (lookup id s.rounds)) [
    | inl n ↦ ground (arith, h j x, store_row-rounds s)
    | inr (r, n) ↦
        let (i, c) = h id r n in
        let (sp, cl) = add_result-kept r agent (sample_of fl p) in
        let r' = (add_result r agent (sample_of fl p)).0 in
        ground (
          arith,
          h j x,
          store_row-rounds s,
          intake_on_time-Registered s id r' (row_of fl id monitor_id agent p (some r)) (rw sp i)
              (rw cl c) h j x,
        )
  ]

  pub handle_result-Registered :
      (s : Scheduler F) (agent : String) (p : ProbeResultPayload F)
      → Registered s
      → Registered (handle_result fl w s agent p)
  unfolding handle_result
  handle_result-Registered s agent p h j x f = elim (Option-cases (id_from_hex p.round_id)) [
    | inl n ↦ ground (arith, h j x)
    | inr (id, n) ↦ elim (Option-cases (id_from_hex p.monitor_id)) [
      | inl m ↦ ground (arith, h j x)
      | inr (monitor_id, m) ↦ ground (arith, intake-Registered s id monitor_id agent p h j x)
    ]
  ]

module _ {F : Type 0} (w : World F) where
  send_task-kept :
      (r : InFlightRound F) (id : String) (task : Envelope)
      → ((send_task w r id task).0.spec ≡ r.spec) × ((send_task w r id task).0.closed ≡ r.closed)
  unfolding send_task mark_dispatched
  send_task-kept r id task = ground arith

  pub send_all-kept :
      (r : InFlightRound F) (task : Envelope) (ids : List String)
      → ((send_all w r task ids).0.spec ≡ r.spec) × ((send_all w r task ids).0.closed ≡ r.closed)
  unfolding send_all
  send_all-kept r task [] = (refl, refl)
  send_all-kept r task (id ∷ ids) =
      ground (arith, send_task-kept r id task, send_all-kept (send_task w r id task).0 task ids)

  resend-kept :
      (agent : String) (r : InFlightRound F)
      → ((resend w agent r).0.spec ≡ r.spec) × ((resend w agent r).0.closed ≡ r.closed)
  unfolding resend send_task mark_dispatched
  resend-kept agent r = ground arith

  -- A round of the map after `AgentOnline` is one of the map before it, offered again.
  lookup-resend_all :
      (agent : String) (rs : List (String × InFlightRound F)) (k : String) (x : InFlightRound F)
      → lookup k (resend_all w agent rs).0 ≡ some x
      → (r : InFlightRound F) × (lookup k rs ≡ some r) × (x.spec ≡ r.spec) × (x.closed ≡ r.closed)
  unfolding resend_all lookup
  lookup-resend_all agent [] k x e = absurd (ground arith)
  lookup-resend_all agent ((id, r) ∷ rs) k x e = elim (Bool-cases (str_eq id k)) [
    | inl y ↦
        (r, ground arith, ground (arith, resend-kept agent r), ground (arith, resend-kept agent r))
    | inr n ↦
        let (q, f, sp, cl) = lookup-resend_all agent rs k x (ground arith) in
        (q, ground arith, sp, cl)
  ]

  pub agent_online-Registered :
      (s : Scheduler F) (agent : String) → Registered s → Registered (agent_online w s agent)
  unfolding agent_online
  agent_online-Registered s agent h k x e =
      let (r, f, sp, cl) = lookup-resend_all agent s.rounds k x e in ground (arith, h k r f, sp, cl)
