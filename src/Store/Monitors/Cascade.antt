-- ===== src/Store/Monitors/Cascade.antt =====
-- What is left of a deleted monitor, `DeleteMonitorCascade` and `DeleteMonitorsCascade` of
-- dashboard/internal/store/monitors.go.
use uptime_mesh.Prelude.{
  ◌≡◌, refl, sym, ap, ◌∙◌, Bool, true, false, not, ◌&&◌, List, [], ◌∷◌, String, str_eq, eq_iff,
  arith, if◌then◌else◌, ◌==◌, keep, count_if, mem?, All, Distinct, Bool-cases, inl, inr,
}
use uptime_mesh.Store.Monitors.{
  MonitorRow, Database, Outcome, succeeded, without, delete_monitor_cascade,
  delete_monitors_cascade,
}

abbrev pub is_success : Outcome → Bool
is_success succeeded = true
is_success _ = false

-- Two filters in a row.
keep-keep {ℓ} :
    {A : Type ℓ} (p q r : A → Bool) (xs : List A)
    → ((x : A) → p x && q x ≡ r x)
    → keep q (keep p xs) ≡ keep r xs
keep-keep p q r [] h = refl
keep-keep p q r (x ∷ xs) h = ground (arith, h x, keep-keep p q r xs h)

keep-nothing {ℓ} :
    {A : Type ℓ} (p : A → Bool) (xs : List A) → ((x : A) → p x ≡ false) → keep p xs ≡ []
keep-nothing p [] h = refl
keep-nothing p (x ∷ xs) h = ground (arith, h x, keep-nothing p xs h)

keep-everything {ℓ} :
    {A : Type ℓ} (p : A → Bool) (xs : List A) → ((x : A) → p x ≡ true) → keep p xs ≡ xs
keep-everything p [] h = refl
keep-everything p (x ∷ xs) h = ground (arith, h x, keep-everything p xs h)

count_if-keep :
    (id other : String) (rows : List MonitorRow)
    → str_eq id other ≡ false
    → count_if (λ m. str_eq other m.id) (keep (λ m. not (str_eq id m.id)) rows)
      ≡ count_if (λ m. str_eq other m.id) rows
count_if-keep id other [] n = refl
count_if-keep id other (m ∷ rows) n =
    ground
      (arith, n, eq_iff id other, eq_iff id m.id, eq_iff other m.id, count_if-keep id other rows)

module _ {F : Type 0} where
  -- The rows of all six tables whose monitor passes a test.
  abbrev pub belongings : (String → Bool) → Database F → Database F
  belongings p t = record {
    monitors = keep (λ row. p row.id) t.monitors;
    rounds = keep (λ row. p row.monitor_id) t.rounds;
    results = keep (λ row. p row.monitor_id) t.results;
    hourly_stats = keep (λ row. p row.monitor_id) t.hourly_stats;
    monitor_state_changes = keep (λ row. p row.monitor_id) t.monitor_state_changes;
    monitor_states = keep (λ row. p row.id) t.monitor_states;
  }

  abbrev pub nothing_left : Database F
  nothing_left = record {
    monitors = [];
    rounds = [];
    results = [];
    hourly_stats = [];
    monitor_state_changes = [];
    monitor_states = [];
  }

  belongings-belongings :
      (p q r : String → Bool) (t : Database F)
      → ((k : String) → p k && q k ≡ r k)
      → belongings q (belongings p t) ≡ belongings r t
  belongings-belongings p q r t h i = record {
    monitors =
        keep-keep (λ row. p row.id) (λ row. q row.id) (λ row. r row.id) t.monitors (λ row. h row.id)
          i;
    rounds =
        keep-keep (λ row. p row.monitor_id) (λ row. q row.monitor_id) (λ row. r row.monitor_id)
          t.rounds (λ row. h row.monitor_id) i;
    results =
        keep-keep (λ row. p row.monitor_id) (λ row. q row.monitor_id) (λ row. r row.monitor_id)
          t.results (λ row. h row.monitor_id) i;
    hourly_stats =
        keep-keep (λ row. p row.monitor_id) (λ row. q row.monitor_id) (λ row. r row.monitor_id)
          t.hourly_stats (λ row. h row.monitor_id) i;
    monitor_state_changes =
        keep-keep (λ row. p row.monitor_id) (λ row. q row.monitor_id) (λ row. r row.monitor_id)
          t.monitor_state_changes (λ row. h row.monitor_id) i;
    monitor_states =
        keep-keep (λ row. p row.id) (λ row. q row.id) (λ row. r row.id) t.monitor_states
          (λ row. h row.id) i;
  }

  belongings-nothing :
      (p : String → Bool) (t : Database F)
      → ((k : String) → p k ≡ false)
      → belongings p t ≡ nothing_left
  belongings-nothing p t h i = record {
    monitors = keep-nothing (λ row. p row.id) t.monitors (λ row. h row.id) i;
    rounds = keep-nothing (λ row. p row.monitor_id) t.rounds (λ row. h row.monitor_id) i;
    results = keep-nothing (λ row. p row.monitor_id) t.results (λ row. h row.monitor_id) i;
    hourly_stats =
        keep-nothing (λ row. p row.monitor_id) t.hourly_stats (λ row. h row.monitor_id) i;
    monitor_state_changes =
        keep-nothing (λ row. p row.monitor_id) t.monitor_state_changes (λ row. h row.monitor_id) i;
    monitor_states = keep-nothing (λ row. p row.id) t.monitor_states (λ row. h row.id) i;
  }

  belongings-everything :
      (p : String → Bool) (t : Database F) → ((k : String) → p k ≡ true) → belongings p t ≡ t
  belongings-everything p t h i = record {
    monitors = keep-everything (λ row. p row.id) t.monitors (λ row. h row.id) i;
    rounds = keep-everything (λ row. p row.monitor_id) t.rounds (λ row. h row.monitor_id) i;
    results = keep-everything (λ row. p row.monitor_id) t.results (λ row. h row.monitor_id) i;
    hourly_stats =
        keep-everything (λ row. p row.monitor_id) t.hourly_stats (λ row. h row.monitor_id) i;
    monitor_state_changes =
        keep-everything (λ row. p row.monitor_id) t.monitor_state_changes (λ row. h row.monitor_id)
          i;
    monitor_states = keep-everything (λ row. p row.id) t.monitor_states (λ row. h row.id) i;
  }

  -- What the deletion of some monitors leaves of one of them, and of another.
  belongings-without :
      (chosen : String → Bool) (j : String) (t : Database F)
      → belongings (str_eq j) (without chosen t)
        ≡ (if chosen j then nothing_left else belongings (str_eq j) t)
  belongings-without chosen j t = elim (Bool-cases (chosen j)) [
    | inl c ↦ rw c (
        belongings-belongings (λ k. not (chosen k)) (str_eq j) (λ k. false) t
          (λ k. ground (arith, c, eq_iff j k))
        ∙ belongings-nothing (λ k. false) t (λ k. refl))
    | inr c ↦ rw c (
        belongings-belongings (λ k. not (chosen k)) (str_eq j) (str_eq j) t
          (λ k. ground (arith, c, eq_iff j k)))
  ]

  -- One monitor is deleted, or none: where the deletion succeeds, which it does exactly if nothing
  -- fails and the monitor is there, none of the six tables has a row of it any more; in every other
  -- case, and for every other monitor, each table keeps the rows that it had, in their order.
  pub delete_monitor_cascade_lem :
      (fails : Bool) (t : Database F) (id j : String)
      → let gone = delete_monitor_cascade fails t id in
        (is_success gone.1 ≡ not fails && not (count_if (λ m. str_eq id m.id) t.monitors == 0))
        × (belongings (str_eq j) gone.0
            ≡ (if is_success gone.1 && str_eq id j then nothing_left else belongings (str_eq j) t))
  unfolding delete_monitor_cascade
  delete_monitor_cascade_lem fails t id j =
      (ground arith, ground (arith, belongings-without (str_eq id) j t))

  -- The single deletion, one after the other.
  unfoldable pub delete_each : Database F → List String → Database F
  delete_each t [] = t
  delete_each t (id ∷ ids) = delete_each (delete_monitor_cascade false t id).0 ids

  abbrev pub is_there : Database F → String → Bool
  is_there t id = not (count_if (λ m. str_eq id m.id) t.monitors == 0)

  without-without :
      (id : String) (ids : List String) (t : Database F)
      → without (λ k. mem? k ids) (without (str_eq id) t) ≡ without (λ k. mem? k (id ∷ ids)) t
  unfolding mem?
  without-without id ids t =
      belongings-belongings (λ k. not (str_eq id k)) (λ k. not (mem? k ids))
        (λ k. not (mem? k (id ∷ ids))) t (λ k. ground arith)

  still_there :
      (t : Database F) (id : String) (ids : List String)
      → mem? id ids ≡ false
      → All (λ k. is_there t k ≡ true) ids
      → All (λ k. is_there (without (str_eq id) t) k ≡ true) ids
  unfolding mem?
  still_there t id [] n a = a
  still_there t id (k ∷ ids) n (a, as_) = (
    ground (arith, a, eq_iff id k, eq_iff k id, count_if-keep id k t.monitors),
    still_there t id ids (ground arith) as_,
  )

  delete_each-without :
      (ids : List String) (t : Database F)
      → Distinct ids
      → All (λ k. is_there t k ≡ true) ids
      → delete_each t ids ≡ without (λ k. mem? k ids) t
  unfolding delete_each delete_monitor_cascade mem?
  delete_each-without [] t d a = sym (belongings-everything (λ k. true) t (λ k. refl))
  delete_each-without (id ∷ ids) t (n, d) (a, rest) =
      let e : (delete_monitor_cascade false t id).0 ≡ without (str_eq id) t = ground (arith, a) in
      ap (λ u. delete_each u ids) e
      ∙ delete_each-without ids (without (str_eq id) t) d (still_there t id ids n rest)
      ∙ without-without id ids t

  -- For different ids, each of a monitor that is there, and no failure: the deletion of many monitors
  -- at once leaves the tables that deleting them one after the other leaves.
  pub delete_monitors_cascade-each :
      (ids : List String) (t : Database F)
      → Distinct ids
      → All (λ k. is_there t k ≡ true) ids
      → (delete_monitors_cascade false t ids).0 ≡ delete_each t ids
  unfolding delete_monitors_cascade delete_each
  delete_monitors_cascade-each [] t d a = refl
  delete_monitors_cascade-each (id ∷ ids) t d a = sym (delete_each-without (id ∷ ids) t d a)
