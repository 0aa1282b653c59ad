-- ===== src/Scheduler/Flight/Waiters.antt =====
-- Interleavings of the critical sections of a round (dashboard/internal/scheduler/round.go).
use uptime_mesh.Prelude.{
  ◌≡◌, refl, true, false, List, [], ◌∷◌, none, some, String, arith, is_some, lookup, mem?, eq_iff,
  lookup-insert, mem?-remove,
}
use uptime_mesh.Prelude.Float64.{Float64}
use uptime_mesh.Scheduler.Round.{RoundSpec, Sample, aggregate}
use uptime_mesh.Scheduler.Flight.{
  Envelope, InFlightRound, new_round, set_task, mark_dispatched, add_result, await_result, close,
}

-- One critical section.
pub data Call (F : Type 0) : Type 0 where
  tasks : Envelope → Call F
  marks : String → Call F
  results : String → Sample F → Call F
  awaits : String → Call F
  closes : List String → List String → Call F

module _ {F : Type 0} (fl : Float64 F) where
  pub call : InFlightRound F → Call F → InFlightRound F
  call r (tasks env) = set_task r env
  call r (marks id) = mark_dispatched r id
  call r (results id s) = (add_result r id s).0
  call r (awaits id) = (await_result r id).0
  call r (closes dead undispatched) = (close fl r dead undispatched).0

  pub calls : InFlightRound F → List (Call F) → InFlightRound F
  calls r [] = r
  calls r (c ∷ cs) = calls (call r c) cs

  -- A waiter whose agent has reported would wait for ever.
  abbrev pub NoneStranded : InFlightRound F → Type 0
  NoneStranded r = (id : String) → mem? id r.waiters ≡ true → is_some (lookup id r.results) ≡ false

  -- An open round has no aggregation; a closed one has that of the samples which it still holds.
  pub data Stands (r : InFlightRound F) : Type 0 where
    still_open : r.closed ≡ false → r.agg ≡ none → Stands r
    was_closed :
        (dead undispatched : List String)
        → r.closed ≡ true
        → r.agg ≡ some (aggregate fl r.spec r.results dead undispatched)
        → Stands r

  call-NoneStranded : (r : InFlightRound F) (c : Call F) → NoneStranded r → NoneStranded (call r c)
  unfolding call set_task mark_dispatched add_result await_result close mem?
  call-NoneStranded r (tasks env) h j = h j
  call-NoneStranded r (marks id) h j = h j
  call-NoneStranded r (results id s) h j =
      ground (arith, h j, mem?-remove id j r.waiters, lookup-insert id j s r.results)
  call-NoneStranded r (awaits id) h j = ground (arith, h j, eq_iff id j)
  call-NoneStranded r (closes dead undispatched) h j = ground (arith, h j)

  call-Stands : (r : InFlightRound F) (c : Call F) → Stands r → Stands (call r c)
  unfolding call set_task mark_dispatched add_result await_result close
  call-Stands r (tasks env) (still_open c a) = still_open c a
  call-Stands r (marks id) (still_open c a) = still_open c a
  call-Stands r (results id s) (still_open c a) = still_open (ground arith) (ground arith)
  call-Stands r (awaits id) (still_open c a) = still_open (ground arith) (ground arith)
  call-Stands r (closes dead undispatched) (still_open c a) =
      was_closed dead undispatched (ground arith) (ground arith)
  call-Stands r (tasks env) (was_closed d u c a) = was_closed d u c a
  call-Stands r (marks id) (was_closed d u c a) = was_closed d u c a
  call-Stands r (results id s) (was_closed d u c a) = was_closed d u (ground arith) (ground arith)
  call-Stands r (awaits id) (was_closed d u c a) = was_closed d u (ground arith) (ground arith)
  call-Stands r (closes dead undispatched) (was_closed d u c a) =
      was_closed d u (ground arith) (ground arith)

  calls_both :
      (r : InFlightRound F) (cs : List (Call F))
      → NoneStranded r
      → Stands r
      → NoneStranded (calls r cs) × Stands (calls r cs)
  unfolding calls
  calls_both r [] h v = (h, v)
  calls_both r (c ∷ cs) h v = calls_both (call r c) cs (call-NoneStranded r c h) (call-Stands r c v)

  -- From a new round, by any interleaving of its methods' critical sections: no open channel is
  -- waited on for an agent whose sample has come in, and the aggregation of a closed round is that
  -- of exactly the samples it holds, so that none is taken in after the closing.
  pub calls_safe :
      (spec : RoundSpec F) (cs : List (Call F))
      → NoneStranded (calls (new_round spec) cs) × Stands (calls (new_round spec) cs)
  unfolding new_round mem?
  calls_safe spec cs =
      calls_both (new_round spec) cs (λ id m. absurd (ground arith)) (still_open refl refl)
