-- ===== src/Scheduler/Round/Recovered.antt =====
-- What a start recovers of an open round (dashboard/internal/store/rounds.go), against the
-- aggregation that the process before it would have made.
use uptime_mesh.Prelude.{
  ℕ, ◌+◌, ◌≡◌, refl, ◌∙◌, sym, ap, Bool, not, ◌&&◌, List, [], ◌∷◌, String, arith, lookup,
  if◌then◌else◌, eq_iff, mem?, keep, count_if, keep_ext, Distinct, count_if-swap, count_if-ext,
}
use uptime_mesh.Prelude.Float64.{Float64}
use uptime_mesh.Store.Rounds.{CheckResult, RoundClose}
use uptime_mesh.Store.Orphans.{
  OrphanRound, count_sample, count_samples, recount, reporters, nothing_counted,
}
use uptime_mesh.Scheduler.Round.{RoundSpec, Results, eff_ok, is_speed, aggregate}
use uptime_mesh.Scheduler.Round.Missing.{reported, is_dead, aggregate_groups}
use uptime_mesh.Scheduler.Round.Counts.{counted, succeeded, aggregate_counts}

module _ {F : Type 0} (spec : RoundSpec F) where
  -- The rows are those of the samples, in the order in which they came in: one for each, with the
  -- verdict as `handleResult` stores it.
  abbrev pub Stored : Results F → List (CheckResult F) → Type 0
  Stored [] [] = Unit
  Stored [] (r ∷ rs) = ⊥
  Stored ((id, s) ∷ results) [] = ⊥
  Stored ((id, s) ∷ results) (r ∷ rs) =
      (r.agent_id ≡ id) × (r.ok ≡ eff_ok spec s.ok) × Stored results rs

  abbrev pub agents : Results F → List String
  agents [] = []
  agents ((id, s) ∷ results) = id ∷ agents results

  abbrev successes : Results F → List String
  successes [] = []
  successes ((id, s) ∷ results) =
      if eff_ok spec s.ok then id ∷ successes results else successes results

  mem?-agents : (results : Results F) (k : String) → mem? k (agents results) ≡ reported results k
  unfolding mem? lookup
  mem?-agents [] k = refl
  mem?-agents ((id, s) ∷ results) k = ground (arith, mem?-agents results k)

  mem?-successes :
      (results : Results F) (k : String)
      → Distinct (agents results)
      → mem? k (successes results) ≡ succeeded spec results k
  unfolding mem? lookup
  mem?-successes [] k d = refl
  mem?-successes ((id, s) ∷ results) k (n, d) =
      ground (arith, eq_iff id k, mem?-successes results k d, mem?-agents results k)

  Distinct-successes :
      (results : Results F) → Distinct (agents results) → Distinct (successes results)
  unfolding mem? lookup
  Distinct-successes [] d = tt
  Distinct-successes ((id, s) ∷ results) (n, d) =
      ground
        (arith, Distinct-successes results d, mem?-successes results id d, mem?-agents results id)

module _ {F : Type 0} (fl : Float64 F) (spec : RoundSpec F) (rd : OrphanRound) where
  abbrev in_assigned : CheckResult F → Bool
  in_assigned r = mem? r.agent_id rd.assigned

  abbrev Adds : RoundClose F → ℕ → ℕ → RoundClose F → Type 0
  Adds upd n k t =
      (t.valid ≡ upd.valid + n)
      × (t.success ≡ upd.success + k)
      × (t.latency_count ≡ upd.latency_count + n)
      × (t.speed_count ≡ upd.speed_count + (if rd.download then n else 0))

  count_sample-Adds :
      (upd : RoundClose F) (r : CheckResult F)
      → Adds upd
          (if in_assigned r then 1 else 0)
          (if in_assigned r && r.ok then 1 else 0)
          (count_sample fl rd upd r)
  unfolding count_sample
  count_sample-Adds upd r = ground arith

  count_samples-Adds :
      (upd : RoundClose F) (rows : List (CheckResult F))
      → Adds upd
          (count_if in_assigned rows)
          (count_if (λ r. in_assigned r && r.ok) rows)
          (count_samples fl rd upd rows)
  unfolding count_samples
  count_samples-Adds upd [] = ground arith
  count_samples-Adds upd (r ∷ rows) =
      ground (arith, count_sample-Adds upd r, count_samples-Adds (count_sample fl rd upd r) rows)

  count-Stored :
      (results : Results F) (rows : List (CheckResult F))
      → Stored spec results rows
      → (count_if in_assigned rows ≡ count_if (λ id. mem? id rd.assigned) (agents spec results))
        × (count_if (λ r. in_assigned r && r.ok) rows
            ≡ count_if (λ id. mem? id rd.assigned) (successes spec results))
  count-Stored [] [] h = (refl, refl)
  count-Stored [] (r ∷ rows) h = absurd h
  count-Stored (x ∷ results) [] h = absurd h
  count-Stored ((id, s) ∷ results) (r ∷ rows) (a, o, h) =
      ground (arith, count-Stored results rows h)

  mem?-reporters :
      (results : Results F) (rows : List (CheckResult F)) (k : String)
      → Stored spec results rows
      → mem? k (reporters rd.assigned rows) ≡ mem? k rd.assigned && mem? k (agents spec results)
  unfolding mem?
  mem?-reporters [] [] k h = ground arith
  mem?-reporters [] (r ∷ rows) k h = absurd h
  mem?-reporters (x ∷ results) [] k h = absurd h
  mem?-reporters ((id, s) ∷ results) (r ∷ rows) k (a, o, h) =
      ground (arith, eq_iff id k, mem?-reporters results rows k h)

  recount-Adds :
      (rows : List (CheckResult F))
      → let u = recount fl rd rows in
        Adds
          (nothing_counted fl)
          (count_if in_assigned rows)
          (count_if (λ r. in_assigned r && r.ok) rows)
          u
        × (u.missing_dead ≡ keep (λ id. not (mem? id (reporters rd.assigned rows))) rd.assigned)
  unfolding recount
  recount-Adds rows = ground (arith, count_samples-Adds (nothing_counted fl) rows)

  -- The samples of assigned agents, counted by agent.
  count-reported :
      (results : Results F)
      → Distinct (agents spec results)
      → Distinct spec.agent_ids
      → (count_if (λ id. mem? id spec.agent_ids) (agents spec results)
          ≡ count_if (reported results) spec.agent_ids)
        × (count_if (λ id. mem? id spec.agent_ids) (successes spec results)
            ≡ count_if (succeeded spec results) spec.agent_ids)
        × (count_if (counted results spec.agent_ids []) spec.agent_ids
            ≡ count_if (reported results) spec.agent_ids)
  unfolding mem?
  count-reported results d e = (
    count_if-swap (agents spec results) spec.agent_ids d e
        ∙ count_if-ext _ _ spec.agent_ids (λ k m. mem?-agents spec results k),
    count_if-swap (successes spec results) spec.agent_ids (Distinct-successes spec results d) e
        ∙ count_if-ext _ _ spec.agent_ids (λ k m. mem?-successes spec results k d),
    count_if-ext _ _ spec.agent_ids (λ k m. ground arith),
  )

  missing_dead_rows :
      (results : Results F) (rows : List (CheckResult F))
      → Stored spec results rows
      → keep (λ id. not (mem? id (reporters rd.assigned rows))) rd.assigned
        ≡ keep (is_dead results rd.assigned []) rd.assigned
  missing_dead_rows results rows h =
      keep_ext _ _ rd.assigned
        (λ k m. ground (arith, mem?-reporters results rows k h, mem?-agents spec results k))

  -- With no agent that has two samples or is assigned twice, and for an orphan of the same
  -- agents and kind of monitor, the rows of the samples are recounted to what `aggregate` makes
  -- of the samples themselves when no missing agent answers a ping: the same denominator and
  -- numerator, the same counts of latencies and speeds, the same missing agents.
  pub recount-aggregate :
      (results : Results F) (rows : List (CheckResult F))
      → Stored spec results rows
      → Distinct (agents spec results)
      → Distinct spec.agent_ids
      → rd.assigned ≡ spec.agent_ids
      → rd.download ≡ is_speed spec.metric
      → let u = recount fl rd rows in
        let a = aggregate fl spec results spec.agent_ids [] in
        (u.valid ≡ a.valid)
        × (u.success ≡ a.success)
        × (u.latency_count ≡ a.latency_count)
        × (u.speed_count ≡ a.speed_count)
        × (u.missing_dead ≡ a.missing_dead)
  recount-aggregate results rows h d e ids down =
      let (v, s, l, sp, _, _) = aggregate_counts fl spec results spec.agent_ids [] in
      let (md, _, _, _) = aggregate_groups fl spec results spec.agent_ids [] in
      let ((v', s', l', sp'), md') = recount-Adds rows in
      let (c, c') = count-Stored results rows h in
      let (r, r', k) = count-reported results d e in
      let count_ids =
        ap (λ (xs : List String). count_if (λ id. mem? id xs) (successes spec results)) ids in
      let n : count_if in_assigned rows ≡ count_if (reported results) spec.agent_ids =
        c ∙ ap (λ (xs : List String). count_if (λ id. mem? id xs) (agents spec results)) ids ∙ r in
      (
        omega (arith, v', n, k, v),
        omega (arith, s', c', count_ids, r', s),
        omega (arith, l', n, l),
        ground (arith, sp', sp, v, k, n, down),
        md'
            ∙ missing_dead_rows results rows h
            ∙ ap (λ (xs : List String). keep (is_dead results xs []) xs) ids
            ∙ sym md,
      )
