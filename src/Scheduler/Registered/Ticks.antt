-- ===== src/Scheduler/Registered/Ticks.antt =====
-- Whole histories of the scheduler (dashboard/internal/scheduler/scheduler.go).
use uptime_mesh.Prelude.{
  ◌≡◌, ◌≤◌, refl, sym, ◌∙◌, ◌&&◌, ℕ, ◌*◌, Bool, List, [], ◌∷◌, Option, none, some, String, arith,
  lookup, insert, delete, All, map,
}
use uptime_mesh.Prelude.Float64.{Float64}
use uptime_mesh.Store.Id.{id_from_hex}
use uptime_mesh.Scheduler.Plan.{plan_round, second}
use uptime_mesh.Scheduler.Flight.{InFlightRound}
use uptime_mesh.Scheduler.Monitor.{Monitor, Check}
use uptime_mesh.Scheduler.World.{Scheduler, World}
use uptime_mesh.Scheduler.Intake.{ProbeResultPayload, handle_result}
use uptime_mesh.Scheduler.Dispatch.{
  ProbeTaskPayload, agent_online, kick_all, has_in_flight_round, is_download,
}
use uptime_mesh.Scheduler.Push.{report_push}
use uptime_mesh.Scheduler.Cycle.{
  Turn, refresh_grace, cycle_monitor, cycle_monitors, cycle, expire_one, expire, expire_all,
}
use uptime_mesh.Scheduler.Cycle.Expiry.{kept, expire_all-lookup, Registered-expire_one}
use uptime_mesh.Scheduler.Registered.{Registered}
use uptime_mesh.Scheduler.Registered.Rounds.{Registered-same}
use uptime_mesh.Scheduler.Registered.Steps.{handle_result-Registered, agent_online-Registered}
use uptime_mesh.Scheduler.Registered.Openings.{
  create_round-Registered, report_push-Registered, cycle_push-Registered,
}

module _ {F : Type 0} (fl : Float64 F) (marshal : Check → Option String)
    (encode : ProbeTaskPayload → Option String) where
  -- The row of a turn would get an id that is one.
  abbrev pub Minted : Turn F → Type 0
  Minted t = id_from_hex t.round_id ≡ some t.round_id

  cycle_monitor-Registered :
      (w : World F) (s : Scheduler F) (t : Turn F)
      → Minted t
      → Registered s
      → Registered (cycle_monitor fl marshal encode w s t)
  unfolding cycle_monitor
  cycle_monitor-Registered world s t i h j x f =
      let m = t.monitor in
      let w = record world { fresh_id = t.round_id } in
      let inflight = is_download m.type && has_in_flight_round s m.id in
      let p = plan_round (lookup m.id s.monitors) w.now (m.period * second) inflight in
      let planned = record s { monitors = insert m.id p.next s.monitors } in
      ground (
        arith,
        h j x,
        cycle_push-Registered fl w s m t.note i h j x,
        create_round-Registered fl marshal encode w planned m p.plan_at i h j x,
      )

  cycle_monitors-Registered :
      (w : World F) (s : Scheduler F) (ts : List (Turn F))
      → All Minted ts
      → Registered s
      → Registered (cycle_monitors fl marshal encode w s ts)
  unfolding cycle_monitors
  cycle_monitors-Registered w s [] i h = h
  cycle_monitors-Registered w s (t ∷ ts) (i, is) h =
      cycle_monitors-Registered w (cycle_monitor fl marshal encode w s t) ts is
        (cycle_monitor-Registered w s t i h)

  expire-Registered :
      (w : World F) (s : Scheduler F) (ids : List String)
      → Registered s
      → Registered (expire fl w s ids)
  unfolding expire
  expire-Registered w s [] h = h
  expire-Registered w s (id ∷ ids) h =
      expire-Registered w (expire_one fl w s (lookup id s.rounds)) ids
        (Registered-expire_one fl w s id h)

  refresh_grace-rounds :
      (grace : Option ℕ) (s : Scheduler F) → (refresh_grace grace s).rounds ≡ s.rounds
  unfolding refresh_grace
  refresh_grace-rounds none s = refl
  refresh_grace-rounds (some seconds) s = ground arith

  before_expiry-Registered :
      (w : World F) (s : Scheduler F) (grace : Option ℕ) (ts : List (Turn F))
      → All Minted ts
      → Registered s
      → Registered (cycle_monitors fl marshal encode w (refresh_grace grace s) ts)
  before_expiry-Registered w s grace ts i h =
      cycle_monitors-Registered w (refresh_grace grace s) ts i
        (Registered-same s (refresh_grace grace s) (refresh_grace-rounds grace s) h)

  -- One handler of the scheduler, with what it meets.
  pub data Handling : Type 0 where
    result_in : World F → String → ProbeResultPayload F → Handling
    comes_online : World F → String → Handling
    reports : World F → Monitor F → Bool → F → String → Handling
    ticks : World F → Option ℕ → Option (List (Turn F)) → Handling
    kicks : List String → Handling

  unfoldable pub after : Scheduler F → Handling → Scheduler F
  after s (result_in w agent p) = handle_result fl w s agent p
  after s (comes_online w agent) = agent_online w s agent
  after s (reports w m ok latency_ms note) = report_push fl w s m ok latency_ms note
  after s (ticks w grace turns) = cycle fl marshal encode w s grace turns
  after s (kicks ids) = kick_all s ids

  -- Ids of new rows are ids.
  abbrev pub Mints : Handling → Type 0
  Mints (reports w m ok latency_ms note) = id_from_hex w.fresh_id ≡ some w.fresh_id
  Mints (ticks w grace (some ts)) = All Minted ts
  Mints _ = Unit

  unfoldable pub history : Scheduler F → List Handling → Scheduler F
  history s [] = s
  history s (e ∷ es) = history (after s e) es

  kick_all-rounds : (s : Scheduler F) (ids : List String) → (kick_all s ids).rounds ≡ s.rounds
  unfolding kick_all
  kick_all-rounds s [] = refl
  kick_all-rounds s (id ∷ ids) = kick_all-rounds (record s { monitors = delete id s.monitors }) ids

  after-Registered :
      (s : Scheduler F) (e : Handling) → Mints e → Registered s → Registered (after s e)
  unfolding after cycle expire_all
  after-Registered s (result_in w agent p) i h = handle_result-Registered fl w s agent p h
  after-Registered s (comes_online w agent) i h = agent_online-Registered w s agent h
  after-Registered s (reports w m ok latency_ms note) i h =
      report_push-Registered fl w s m ok latency_ms note i h
  after-Registered s (ticks w grace none) i h =
      Registered-same s (refresh_grace grace s) (refresh_grace-rounds grace s) h
  after-Registered s (ticks w grace (some ts)) i h =
      let ready = cycle_monitors fl marshal encode w (refresh_grace grace s) ts in
      expire-Registered w ready (map (λ (id, r). id) ready.rounds)
        (before_expiry-Registered w s grace ts i h)
  after-Registered s (kicks ids) i h = Registered-same s (kick_all s ids) (kick_all-rounds s ids) h

  -- From a scheduler for which it holds (one with no open round, say), through any handlers in any order, whatever fails in them,
  -- where every new row gets a valid id: the open rounds stand under their own ids, and none of
  -- them is closed, so that no closed round is left behind in the map.
  pub history-Registered :
      (s : Scheduler F) (es : List Handling)
      → All Mints es
      → Registered s
      → Registered (history s es)
  unfolding history
  history-Registered s [] i h = h
  history-Registered s (e ∷ es) (i, is) h =
      history-Registered (after s e) es is (after-Registered s e i h)

  kept_in_time :
      (w : World F) (o : Option (InFlightRound F)) (r : InFlightRound F)
      → kept fl w o ≡ some r
      → w.now ≤ r.spec.deadline
  kept_in_time w none r e = absurd (ground arith)
  kept_in_time w (some q) r e = ground arith

  -- After a tick at which the monitors can be read, at the end of any history of the scheduler in
  -- which every new row gets a valid id, no open round is past its deadline: none waits for ever, whatever fails and whoever is silent.
  pub history_in_time :
      (s : Scheduler F) (es : List Handling) (w : World F) (grace : Option ℕ) (ts : List (Turn F))
      → Registered s
      → All Mints es
      → All Minted ts
      → (k : String) (r : InFlightRound F)
      → lookup k (after (history s es) (ticks w grace (some ts))).rounds ≡ some r
      → w.now ≤ r.spec.deadline
  unfolding after cycle
  history_in_time s es w grace ts h i j k r e =
      let before = history s es in
      let ready = cycle_monitors fl marshal encode w (refresh_grace grace before) ts in
      let held = before_expiry-Registered w before grace ts j (history-Registered s es i h) in
      kept_in_time w (lookup k ready.rounds) r (sym (expire_all-lookup fl w ready k held) ∙ e)
