-- ===== src/Scheduler/Registered/Openings.antt =====
-- New rounds: those of `createRound` (dashboard/internal/scheduler/scheduler.go), and those that are
-- reported from outside (push.go beside it).
use mathlib.Core.Path.{subst}
use uptime_mesh.Prelude.{
  true, ◌≡◌, refl, false, ℕ, Bool, List, Option, some, String, arith, lookup, insert, Bool-cases,
  Option-cases, inl, inr, if◌then◌else◌,
}
use uptime_mesh.Prelude.Float64.{Float64}
use uptime_mesh.Store.{unix_sec}
use uptime_mesh.Store.Rounds.{insert_round}
use uptime_mesh.Store.Id.{id_from_hex}
use uptime_mesh.Scheduler.Flight.{
  InFlightRound, Envelope, new_round, set_task, mark_dispatched, add_result,
}
use uptime_mesh.Scheduler.Monitor.{Monitor, Check, check_payload, assigned_agents}
use uptime_mesh.Scheduler.World.{Scheduler, World}
use uptime_mesh.Scheduler.Intake.{store_row}
use uptime_mesh.Scheduler.Dispatch.{
  ProbeTaskPayload, send_all, deadline_of, probe_spec, open_round, create_round, is_download,
}
use uptime_mesh.Scheduler.Push.{
  push_row, push_flight, push_result, push_round, push_spec, report_push, cycle_push,
}
use uptime_mesh.Scheduler.Registered.{Registered}
use uptime_mesh.Scheduler.Registered.Rounds.{
  Registered-same, Registered-insert, Registered-finalize,
}
use uptime_mesh.Scheduler.Registered.Steps.{store_row-rounds, send_all-kept}

module _ {F : Type 0} (fl : Float64 F) (marshal : Check → Option String)
    (encode : ProbeTaskPayload → Option String) (w : World F) where
  -- What `createRound` does to the map of open rounds.
  data Opens (s : Scheduler F) (t : Scheduler F) : Type 0 where
    not_opened : t.rounds ≡ s.rounds → Opens s t
    opened :
        (r : InFlightRound F)
        → r.spec.round_id ≡ w.fresh_id
        → r.closed ≡ false
        → t.rounds ≡ insert w.fresh_id r s.rounds
        → Opens s t

  Opens-Registered :
      (s t : Scheduler F)
      → id_from_hex w.fresh_id ≡ some w.fresh_id
      → Opens s t
      → Registered s
      → Registered t
  Opens-Registered s t i (not_opened e) h = Registered-same s t e h
  Opens-Registered s t i (opened r f c e) h = Registered-insert s t w.fresh_id r e (rw f i) c h

  open_round-Opens :
      (s : Scheduler F) (m : Monitor F) (plan_at : ℕ) (check : String) (ids : List String)
      → Opens s (open_round fl marshal encode w s m plan_at check ids)
  unfolding open_round set_task new_round probe_spec
  open_round-Opens s m plan_at check ids =
      let deadline = deadline_of s m ids w.now in
      let payload = encode (record {
        round_id = w.fresh_id;
        monitor_id = m.id;
        monitor_name = m.name;
        monitor_type = m.type;
        check = check;
        deadline_unix = unix_sec deadline;
      }) in
      elim (Bool-cases w.round_insert_fails) [
        | inl y ↦ not_opened (ground arith)
        | inr n ↦ elim (Option-cases payload) [
          | inl z ↦ not_opened (ground arith)
          | inr (text, e) ↦
              let task : Envelope = record { type = "probe_task"; payload = text } in
              let flight =
                set_task
                  (new_round (probe_spec fl marshal encode m w.fresh_id ids plan_at deadline))
                  task in
              opened (if is_download m.type then flight else (send_all w flight task ids).0)
                (ground (arith, send_all-kept w flight task ids))
                (ground (arith, send_all-kept w flight task ids)) (ground arith)
        ]
      ]

  create_round-Opens :
      (s : Scheduler F) (m : Monitor F) (plan_at : ℕ)
      → Opens s (create_round fl marshal encode w s m plan_at)
  unfolding create_round
  create_round-Opens s m plan_at = elim (Option-cases (check_payload marshal m)) [
    | inl n ↦ not_opened (ground arith)
    | inr (check, c) ↦ elim (Option-cases (assigned_agents m w.approved)) [
      | inl n ↦ not_opened (ground arith)
      | inr (ids, a) ↦ subst (Opens s) (ground arith) (open_round-Opens s m plan_at check ids)
    ]
  ]

  pub create_round-Registered :
      (s : Scheduler F) (m : Monitor F) (plan_at : ℕ)
      → id_from_hex w.fresh_id ≡ some w.fresh_id
      → Registered s
      → Registered (create_round fl marshal encode w s m plan_at)
  create_round-Registered s m plan_at i h =
      Opens-Registered s (create_round fl marshal encode w s m plan_at) i
        (create_round-Opens s m plan_at) h

module _ {F : Type 0} (fl : Float64 F) (w : World F) where
  push_flight-kept :
      (id : String) (m : Monitor F) (ok : Bool) (latency_ms : F) (at : ℕ) (note : String)
      (invert : Bool)
      → let r = (push_flight fl id m ok latency_ms at note invert).0 in
        (r.spec.round_id ≡ id) × (r.closed ≡ false)
  unfolding push_flight push_spec new_round mark_dispatched add_result lookup
  push_flight-kept id m ok latency_ms at note invert = (refl, refl)

  pub push_round-Registered :
      (s : Scheduler F) (m : Monitor F) (ok : Bool) (latency_ms : F) (at : ℕ) (note : String)
      (invert : Bool)
      → id_from_hex w.fresh_id ≡ some w.fresh_id
      → Registered s
      → Registered (push_round fl w s m ok latency_ms at note invert)
  unfolding push_round
  push_round-Registered s m ok latency_ms at note invert i h j x f =
      let id = w.fresh_id in
      let r = (push_flight fl id m ok latency_ms at note invert).0 in
      let (n, c) = push_flight-kept id m ok latency_ms at note invert in
      let v : id_from_hex r.spec.round_id ≡ some id = rw n i in
      let opened = record s {
        db = record (s.db) { rounds = insert_round s.db.rounds (push_row fl id m at) w.now };
        rounds = insert id r s.rounds;
      } in
      let row = push_result fl id m ok latency_ms at note invert in
      let held : Registered opened = Registered-insert s opened id r refl v c h in
      let stored =
        Registered-same opened (store_row fl w opened row) (store_row-rounds fl w opened row)
          held in
      let done = Registered-finalize fl w (store_row fl w opened row) r id v c stored in
      ground (arith, h j x, held j x, done j x)

  Registered-either :
      (b : Bool) (s t : Scheduler F) → Registered s → Registered t → Registered (if b then s else t)
  Registered-either true s t h k = h
  Registered-either false s t h k = k

  pub report_push-Registered :
      (s : Scheduler F) (m : Monitor F) (ok : Bool) (latency_ms : F) (note : String)
      → id_from_hex w.fresh_id ≡ some w.fresh_id
      → Registered s
      → Registered (report_push fl w s m ok latency_ms note)
  unfolding report_push
  report_push-Registered s m ok latency_ms note i h =
      push_round-Registered _ m ok latency_ms w.now note m.invert_mode i
        (Registered-either w.push_time_fails s _ h h)

  pub cycle_push-Registered :
      (s : Scheduler F) (m : Monitor F) (note : String)
      → id_from_hex w.fresh_id ≡ some w.fresh_id
      → Registered s
      → Registered (cycle_push fl w s m note)
  unfolding cycle_push
  cycle_push-Registered s m note i h j x f =
      let slotted = record s {
        monitors = insert m.id (record { due = w.now; period = m.period }) s.monitors;
      } in
      ground
        (arith, h j x, push_round-Registered slotted m false (fl.of_int 0) w.now note false i h j x)
