-- ===== src/Scheduler/Dispatch/Serial.antt =====
-- `dispatchSerial` of dashboard/internal/scheduler/scheduler.go: the rounds of download monitors.
use mathlib.Core.List.{append_assoc}
use mathlib.Core.Path.{subst}
use uptime_mesh.Prelude.{
  ◌≡◌, refl, ◌&&◌, not, Bool, true, false, List, [], ◌∷◌, String, arith, ◌++◌, ap, ◌∙◌, sym, lookup,
  is_some, if◌then◌else◌, Bool-cases, inl, inr, All,
}
use uptime_mesh.Scheduler.Flight.{Envelope, InFlightRound, mark_dispatched, await_result}
use uptime_mesh.Scheduler.Round.{Results}
use uptime_mesh.Scheduler.World.{World}
use uptime_mesh.Scheduler.Dispatch.{send_task, serial_run, is_empty, blocks}

-- All but the newest of these agents, newest first, have reported.
abbrev pub OneOut : {F : Type 0} → Results F → List String → Type 0
OneOut results [] = Unit
OneOut results (id ∷ ids) = All (λ a. is_some (lookup a results) ≡ true) ids

module _ {F : Type 0} (results : Results F) where
  All-append :
      (xs : List String) (id : String)
      → is_some (lookup id results) ≡ true
      → All (λ a. is_some (lookup a results) ≡ true) xs
      → All (λ a. is_some (lookup a results) ≡ true) (xs ++ id ∷ [])
  All-append [] id h p = (h, tt)
  All-append (x ∷ xs) id h (p, ps) = (p, All-append xs id h ps)

  OneOut-append :
      (xs : List String) (id : String)
      → is_some (lookup id results) ≡ true
      → OneOut results xs
      → OneOut results (xs ++ id ∷ [])
  OneOut-append [] id h p = tt
  OneOut-append (x ∷ xs) id h p = All-append xs id h p

module _ {F : Type 0} (w : World F) (task : Envelope) where
  -- The agents that `u` has been given the task beyond those of `r`, one out at the end.
  abbrev pub GoesOn : InFlightRound F → InFlightRound F → Type 0
  GoesOn r u =
      (news : List String) × (u.dispatched ≡ news ++ r.dispatched)
      × (u.results ≡ r.results)
      × OneOut r.results news

  -- One agent of the loop: not sent; sent and waited for; sent and already in; sent as the last.
  abbrev serial_next : InFlightRound F → String → List String → InFlightRound F
  serial_next r id ids =
      let next = (send_task w r id task).0 in
      if is_some (send_task w r id task).1 && not (is_empty ids)
      then (await_result next id).0
      else next

  serial_next-cases :
      (r : InFlightRound F) (id : String) (ids : List String)
      → r.closed ≡ false
      → let t = serial_next r id ids in
        let stops =
          is_some (send_task w r id task).1
          && not (is_empty ids)
          && blocks (await_result (send_task w r id task).0 id).1 in
        (t.results ≡ r.results)
        × (t.closed ≡ false)
        × (is_some (send_task w r id task).1 ≡ false → t.dispatched ≡ r.dispatched)
        × (is_some (send_task w r id task).1 ≡ true → t.dispatched ≡ id ∷ r.dispatched)
        × (stops ≡ true → (await_result (send_task w r id task).0 id).0 ≡ t)
        × (stops ≡ true → is_some (send_task w r id task).1 ≡ true)
        × (stops ≡ false
            → is_some (send_task w r id task).1 ≡ true
            → is_empty ids ≡ false
            → is_some (lookup id r.results) ≡ true)
  unfolding send_task mark_dispatched await_result
  serial_next-cases r id ids h = ground arith

  GoesOn-results :
      (r t u : InFlightRound F)
      → t.results ≡ r.results
      → t.dispatched ≡ r.dispatched
      → GoesOn t u
      → GoesOn r u
  GoesOn-results r t u e d (news, p, q, o) =
      (news, p ∙ ap (◌++◌ news) d, q ∙ e, subst (λ m. OneOut m news) e o)

  GoesOn-sent :
      (r t u : InFlightRound F) (id : String)
      → t.results ≡ r.results
      → t.dispatched ≡ id ∷ r.dispatched
      → is_some (lookup id r.results) ≡ true
      → GoesOn t u
      → GoesOn r u
  GoesOn-sent r t u id e d h (news, p, q, o) = (
    news ++ id ∷ [],
    p ∙ ap (◌++◌ news) d ∙ sym (append_assoc news (id ∷ []) r.dispatched),
    q ∙ e,
    OneOut-append r.results news id h (subst (λ m. OneOut m news) e o),
  )

  GoesOn-last :
      (r t : InFlightRound F) (id : String)
      → t.results ≡ r.results
      → t.dispatched ≡ id ∷ r.dispatched
      → GoesOn r t
  GoesOn-last r t id e d = (id ∷ [], d, e, tt)

  abbrev stops : InFlightRound F → String → List String → Bool
  stops r id ids =
      is_some (send_task w r id task).1
      && not (is_empty ids)
      && blocks (await_result (send_task w r id task).0 id).1

  serial_run-step :
      (r : InFlightRound F) (id : String) (ids : List String)
      → r.closed ≡ false
      → w.stopping ≡ false
      → (stops r id ids ≡ true
          → (serial_run w r task (id ∷ ids)).0 ≡ (await_result (send_task w r id task).0 id).0)
        × (stops r id ids ≡ false
            → (serial_run w r task (id ∷ ids)).0 ≡ (serial_run w (serial_next r id ids) task ids).0)
  unfolding serial_run
  serial_run-step r id ids h g = ground arith

  serial_run-end :
      (r : InFlightRound F) (ids : List String)
      → is_empty ids ≡ true
      → (serial_run w r task ids).0 ≡ r
  unfolding serial_run
  serial_run-end r [] h = refl
  serial_run-end r (id ∷ ids) h = absurd (ground arith)

  serial_run-stopping :
      (r : InFlightRound F) (ids : List String)
      → w.stopping ≡ true
      → (serial_run w r task ids).0 ≡ r
  unfolding serial_run
  serial_run-stopping r [] g = refl
  serial_run-stopping r (id ∷ ids) g = ground arith

  -- While the scheduler runs.
  serial_run_on :
      (r : InFlightRound F) (ids : List String)
      → w.stopping ≡ false
      → r.closed ≡ false
      → GoesOn r (serial_run w r task ids).0
  unfolding serial_run
  serial_run_on r [] g h = ([], refl, refl, tt)
  serial_run_on r (id ∷ ids) g h =
      let t = serial_next r id ids in
      let (e, c, idle, sent, same, out, in_time) = serial_next-cases r id ids h in
      let (stop, on) = serial_run-step r id ids h g in
      let u = (serial_run w t task ids).0 in
      let rest = serial_run_on t ids g c in
      let go : (v : InFlightRound F)
          → (serial_run w r task (id ∷ ids)).0 ≡ v
          → GoesOn r v
          → GoesOn r (serial_run w r task (id ∷ ids)).0 =
        λ v p k. subst (GoesOn r) (sym p) k in
      elim (Bool-cases (stops r id ids)) [
        | inl s ↦ go t (stop s ∙ same s) (GoesOn-last r t id e (sent (out s)))
        | inr s ↦ elim (Bool-cases (is_some (send_task w r id task).1)) [
          | inr n ↦ go u (on s) (GoesOn-results r t u e (idle n) rest)
          | inl y ↦ elim (Bool-cases (is_empty ids)) [
            | inl l ↦ go t (on s ∙ serial_run-end t ids l) (GoesOn-last r t id e (sent y))
            | inr l ↦ go u (on s) (GoesOn-sent r t u id e (sent y) (in_time s y l) rest)
          ]
        ]
      ]

  -- For a round that is open: until it blocks, ends, or meets a closed round or the end of
  -- the scheduler, the loop over the agents of a download monitor gives the task only to agents all
  -- of whose predecessors in this run have reported: at most the newest of them is still measuring.
  pub serial_run_one_out :
      (r : InFlightRound F) (ids : List String)
      → r.closed ≡ false
      → GoesOn r (serial_run w r task ids).0
  serial_run_one_out r ids h = elim (Bool-cases w.stopping) [
    | inl g ↦ subst (GoesOn r) (sym (serial_run-stopping r ids g)) ([], refl, refl, tt)
    | inr g ↦ serial_run_on r ids g h
  ]
