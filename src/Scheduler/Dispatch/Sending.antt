-- ===== src/Scheduler/Dispatch/Sending.antt =====
-- The end of `createRound` (dashboard/internal/scheduler/scheduler.go): who is given a new round.
use uptime_mesh.Prelude.{
  ◌≡◌, refl, Bool, false, not, ◌&&◌, ◌||◌, List, [], ◌∷◌, Option, none, some, String, arith, lookup,
  eq_iff, keep, keep_ext, mem?, if◌then◌else◌,
}
use uptime_mesh.Store.Id.{id_from_hex}
use uptime_mesh.Scheduler.Flight.{Envelope, InFlightRound, mark_dispatched, undispatched_agents}
use uptime_mesh.Scheduler.World.{World}
use uptime_mesh.Scheduler.Dispatch.{send_task, with_frame, send_all}

-- The id is one, and the hub takes a frame for it.
abbrev pub reachable : {F : Type 0} → World F → String → Bool
reachable w id = elim (id_from_hex id) [ none ↦ false | some aid ↦ w.accepts aid ]

-- The frame of a reachable agent, if it is one.
abbrev pub frame_of : {F : Type 0} → World F → Envelope → String → Option (String × Envelope)
frame_of w task id = elim (id_from_hex id) [
  | none ↦ none
  | some aid ↦ if w.accepts aid then some (aid, task) else none
]

abbrev pub frames_to : {F : Type 0} → World F → Envelope → List String → List (String × Envelope)
frames_to w task [] = []
frames_to w task (id ∷ ids) = with_frame (frame_of w task id) (frames_to w task ids)

module _ {F : Type 0} (w : World F) (task : Envelope) where
  send_task-frame :
      (r : InFlightRound F) (id : String)
      → ((send_task w r id task).0.spec ≡ r.spec)
        × ((send_task w r id task).0.results ≡ r.results)
        × ((send_task w r id task).0.closed ≡ r.closed)
        × ((send_task w r id task).1 ≡ frame_of w task id)
        × ((send_task w r id task).0.dispatched
            ≡ (if reachable w id then id ∷ r.dispatched else r.dispatched))
  unfolding send_task mark_dispatched
  send_task-frame r id = ground arith

  send_all-frames :
      (r : InFlightRound F) (ids : List String) → (send_all w r task ids).1 ≡ frames_to w task ids
  unfolding send_all
  send_all-frames r [] = refl
  send_all-frames r (id ∷ ids) =
      let (_, _, _, f, _) = send_task-frame r id in
      rw (f, send_all-frames (send_task w r id task).0 ids) refl

  send_all-dispatched :
      (r : InFlightRound F) (ids : List String) (k : String)
      → let t = (send_all w r task ids).0 in
        (t.spec ≡ r.spec)
        × (t.results ≡ r.results)
        × (t.closed ≡ r.closed)
        × (mem? k t.dispatched ≡ mem? k r.dispatched || (mem? k ids && reachable w k))
  unfolding send_all mem?
  send_all-dispatched r [] k = (refl, refl, refl, ground arith)
  send_all-dispatched r (id ∷ ids) k = ground (
    arith,
    send_task-frame r id,
    send_all-dispatched (send_task w r id task).0 ids k,
    eq_iff id k,
  )

  -- A round that was given to nobody and has no sample is offered to its agents in their order:
  -- one frame goes to each that the hub takes a frame for, and the others, and only they, remain
  -- undispatched.
  send_all_reaches :
      (r : InFlightRound F)
      → r.dispatched ≡ []
      → r.results ≡ []
      → let (t, frames) = send_all w r task r.spec.agent_ids in
        (frames ≡ frames_to w task r.spec.agent_ids)
        × (undispatched_agents t ≡ keep (λ id. not (reachable w id)) r.spec.agent_ids)
  unfolding undispatched_agents mem? lookup
  send_all_reaches r d e =
      let (s, q, _, _) = send_all-dispatched r r.spec.agent_ids "" in
      (
        send_all-frames r r.spec.agent_ids,
        rw (s, q, e)
            (keep_ext _ _ r.spec.agent_ids
              (λ k m. ground (arith, send_all-dispatched r r.spec.agent_ids k))),
      )
