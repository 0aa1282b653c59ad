-- ===== src/Retention.antt =====
-- dashboard/internal/retention/retention.go: what one reconciliation deletes of the tables. The hourly
-- timer is not modelled.
use uptime_mesh.Prelude.{
  ℕ, ◌≤◌, ◌≡◌, refl, ap, ◌∙◌, Bool, false, not, ◌||◌, leb, List, [], ◌∷◌, Option, none, some, arith,
  if◌then◌else◌, keep, count_if, ◌==◌, Option-cases, inl, inr,
}
use uptime_mesh.Store.{unix_sec}
use uptime_mesh.Store.Rounds.{is_open}
use uptime_mesh.Store.States.{hour_bucket}
use uptime_mesh.Store.Monitors.{Database}
use uptime_mesh.Store.Prune.{
  prune_old_rounds, prune_old_results, prune_old_hourly_stats, prune_old_state_changes,
  is_old_round, is_old_result, is_old_hour, is_old_change,
}
use uptime_mesh.Store.Prune.Batches.{prune-kept, prune_complete}

abbrev pub default_result_retention_days : ℕ
default_result_retention_days = 31

abbrev pub hourly_stats_retention_days : ℕ
hourly_stats_retention_days = 31

-- One of the steps that read the settings: `ResultRetentionDays`, with 0 for a value that is not
-- positive, or `none` where the reading fails; and `time.Now().AddDate(0, 0, -days)`, which
-- `days_ago` stands for at the time of the step.
pub record Reading : Type 0 where
  pub result_retention_days : Option ℕ
  pub days_ago : ℕ → ℕ

-- What a reconciliation meets; the other fields say which statements fail.
pub record Reconciliation : Type 0 where
  pub for_results : Reading
  pub for_rounds : Reading
  pub for_changes : Reading
  pub days_ago : ℕ → ℕ
  pub results_fail : ℕ → Bool
  pub rounds_fail : ℕ → Bool
  pub changes_fail : Bool
  pub hours_fail : ℕ → Bool

abbrev pub kept_days : ℕ → ℕ
kept_days days = if days == 0 then default_result_retention_days else days

-- The cutoff of a step, `none` where the step ends without deleting.
abbrev pub cutoff_of : Reading → Option ℕ
cutoff_of r = elim r.result_retention_days [
  | none ↦ none
  | some days ↦ some (r.days_ago (kept_days days))
]

module _ {A : Type 0} (old : ℕ → A → Bool) where
  -- The rows that are not past a cutoff, if there is one.
  abbrev pub remaining : Option ℕ → List A → List A
  remaining none rows = rows
  remaining (some cutoff) rows = keep (λ x. not (old cutoff x)) rows

  abbrev pub past : Option ℕ → List A → ℕ
  past none rows = 0
  past (some cutoff) rows = count_if (old cutoff) rows

module _ {A : Type 0} where
  -- The rows that a test against a cutoff finds to be recent, all where there is no cutoff.
  abbrev pub since : (ℕ → A → Bool) → Option ℕ → List A → List A
  since recent none rows = rows
  since recent (some cutoff) rows = keep (recent cutoff) rows

  keep-same : (p q : A → Bool) → ((x : A) → p x ≡ q x) → (rows : List A) → keep p rows ≡ keep q rows
  keep-same p q h [] = refl
  keep-same p q h (x ∷ rows) = ground (arith, h x, keep-same p q h rows)

  remaining-since :
      (old recent : ℕ → A → Bool)
      → ((cutoff : ℕ) (x : A) → not (old cutoff x) ≡ recent cutoff x)
      → (cutoff : Option ℕ) (rows : List A) → remaining old cutoff rows ≡ since recent cutoff rows
  remaining-since old recent h none rows = refl
  remaining-since old recent h (some cutoff) rows = keep-same _ _ (h cutoff) rows

module _ {F : Type 0} where
  unfoldable pub prune_results : Reconciliation → Database F → Database F
  prune_results w t = elim (cutoff_of w.for_results) [
    | none ↦ t
    | some cutoff ↦ record t { results = (prune_old_results w.results_fail t.results cutoff).rows }
  ]

  unfoldable pub prune_rounds : Reconciliation → Database F → Database F
  prune_rounds w t = elim (cutoff_of w.for_rounds) [
    | none ↦ t
    | some cutoff ↦ record t { rounds = (prune_old_rounds w.rounds_fail t.rounds cutoff).rows }
  ]

  unfoldable pub prune_state_changes : Reconciliation → Database F → Database F
  prune_state_changes w t = elim (cutoff_of w.for_changes) [
    | none ↦ t
    | some cutoff ↦ record t {
      monitor_state_changes =
          (prune_old_state_changes w.changes_fail t.monitor_state_changes cutoff).rows;
    }
  ]

  unfoldable pub prune_hourly_stats : Reconciliation → Database F → Database F
  prune_hourly_stats w t = record t {
    hourly_stats =
        (prune_old_hourly_stats w.hours_fail t.hourly_stats
          (w.days_ago hourly_stats_retention_days)).rows;
  }

  unfoldable pub once : Reconciliation → Database F → Database F
  once w t = prune_hourly_stats w (prune_state_changes w (prune_rounds w (prune_results w t)))

  -- The tables, one by one.
  once-rounds :
      (w : Reconciliation) (t : Database F) → (once w t).rounds ≡ (prune_rounds w t).rounds
  unfolding once prune_results prune_rounds prune_state_changes prune_hourly_stats
  once-rounds w t = ground arith

  once-changes :
      (w : Reconciliation) (t : Database F)
      → (once w t).monitor_state_changes ≡ (prune_state_changes w t).monitor_state_changes
  unfolding once prune_results prune_rounds prune_state_changes prune_hourly_stats
  once-changes w t = ground arith

  once-results :
      (w : Reconciliation) (t : Database F) → (once w t).results ≡ (prune_results w t).results
  unfolding once prune_results prune_rounds prune_state_changes prune_hourly_stats
  once-results w t = ground arith

  once-hours :
      (w : Reconciliation) (t : Database F)
      → (once w t).hourly_stats ≡ (prune_hourly_stats w t).hourly_stats
  unfolding once prune_results prune_rounds prune_state_changes prune_hourly_stats
  once-hours w t = ground arith

  -- Whatever fails in a reconciliation, it keeps every open round, in their order, however old.
  once-is_open :
      (w : Reconciliation) (t : Database F)
      → keep (λ r. is_open r.state) (once w t).rounds ≡ keep (λ r. is_open r.state) t.rounds
  unfolding prune_rounds prune_old_rounds
  once-is_open w t =
      ap (keep (λ r. is_open r.state)) (once-rounds w t)
      ∙ (elim (Option-cases (cutoff_of w.for_rounds)) [
        | inl n ↦ ground (arith, n)
        | inr (cutoff, n) ↦ ground (
          arith,
          n,
          prune-kept (is_old_round cutoff) (λ r. is_open r.state) w.rounds_fail t.rounds
              (λ r e. ground (arith, e)),
        )
      ])

  rounds_lem :
      (w : Reconciliation) (t : Database F)
      → past is_old_round (cutoff_of w.for_rounds) t.rounds ≤ 1_000_000
      → w.rounds_fail ≡ (λ i. false)
      → (once w t).rounds ≡ remaining is_old_round (cutoff_of w.for_rounds) t.rounds
  unfolding prune_rounds prune_old_rounds
  rounds_lem w t b f = once-rounds w t ∙ (elim (Option-cases (cutoff_of w.for_rounds)) [
    | inl n ↦ ground (arith, n)
    | inr (cutoff, n) ↦
        let bound : count_if (is_old_round cutoff) t.rounds ≤ 1_000_000 = ground (arith, n) in
        ground (arith, n, f, prune_complete (is_old_round cutoff) t.rounds bound)
  ])

  results_lem :
      (w : Reconciliation) (t : Database F)
      → past is_old_result (cutoff_of w.for_results) t.results ≤ 1_000_000
      → w.results_fail ≡ (λ i. false)
      → (once w t).results ≡ remaining is_old_result (cutoff_of w.for_results) t.results
  unfolding prune_results prune_old_results
  results_lem w t b f = once-results w t ∙ (elim (Option-cases (cutoff_of w.for_results)) [
    | inl n ↦ ground (arith, n)
    | inr (cutoff, n) ↦
        let bound : count_if (is_old_result cutoff) t.results ≤ 1_000_000 = ground (arith, n) in
        ground (arith, n, f, prune_complete (is_old_result cutoff) t.results bound)
  ])

  changes_lem :
      (w : Reconciliation) (t : Database F)
      → w.changes_fail ≡ false
      → (once w t).monitor_state_changes
        ≡ remaining is_old_change (cutoff_of w.for_changes) t.monitor_state_changes
  unfolding prune_state_changes prune_old_state_changes
  changes_lem w t f = once-changes w t ∙ (elim (Option-cases (cutoff_of w.for_changes)) [
    | inl n ↦ ground (arith, n)
    | inr (cutoff, n) ↦ ground (arith, n, f)
  ])

  -- Let no statement of a reconciliation fail, and no more than a million rows of each of the
  -- rounds, the results and the hours be up for deletion. Then exactly these rows are left of each
  -- table, in their order: of the rounds the open ones, however old, and those scheduled at or after
  -- their cutoff; of the results those stored, and of the state changes those made, at or after
  -- theirs; of the hourly counters those whose hour is not before the hour of their cutoff. Where
  -- the settings could not be read for a table it is as it was; the hours do not depend on them.
  pub once_lem :
      (w : Reconciliation) (t : Database F)
      → past is_old_round (cutoff_of w.for_rounds) t.rounds ≤ 1_000_000
      → past is_old_result (cutoff_of w.for_results) t.results ≤ 1_000_000
      → count_if (is_old_hour (w.days_ago hourly_stats_retention_days)) t.hourly_stats ≤ 1_000_000
      → w.rounds_fail ≡ (λ i. false)
      → w.results_fail ≡ (λ i. false)
      → w.hours_fail ≡ (λ i. false)
      → w.changes_fail ≡ false
      → let hour = hour_bucket (w.days_ago hourly_stats_retention_days) in
        ((once w t).rounds
          ≡ since
              (λ cutoff r. is_open r.state || leb (unix_sec cutoff) r.scheduled_at)
              (cutoff_of w.for_rounds)
              t.rounds)
        × ((once w t).results
            ≡ since
                (λ cutoff r. leb (unix_sec cutoff) r.created_at)
                (cutoff_of w.for_results)
                t.results)
        × ((once w t).monitor_state_changes
            ≡ since
                (λ cutoff c. leb (unix_sec cutoff) c.changed_at)
                (cutoff_of w.for_changes)
                t.monitor_state_changes)
        × ((once w t).hourly_stats ≡ keep (λ h. leb hour h.hour) t.hourly_stats)
  unfolding prune_hourly_stats prune_old_hourly_stats
  once_lem w t b1 b2 b3 f1 f2 f3 f4 =
      let hour = w.days_ago hourly_stats_retention_days in
      (
        rounds_lem w t b1 f1
            ∙ remaining-since is_old_round _ (λ cutoff r. ground arith) (cutoff_of w.for_rounds)
                t.rounds,
        results_lem w t b2 f2
            ∙ remaining-since is_old_result _ (λ cutoff r. ground arith) (cutoff_of w.for_results)
                t.results,
        changes_lem w t f4
            ∙ remaining-since is_old_change _ (λ cutoff r. ground arith) (cutoff_of w.for_changes)
                t.monitor_state_changes,
        once-hours w t
            ∙ (rw f3 (prune_complete (is_old_hour hour) t.hourly_stats b3).0
                ∙ keep-same (λ h. not (is_old_hour hour h)) (λ h. leb (hour_bucket hour) h.hour)
                    (λ h. ground arith) t.hourly_stats),
      )
