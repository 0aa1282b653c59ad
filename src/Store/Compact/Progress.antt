-- ===== src/Store/Compact/Progress.antt =====
-- How a compaction ends, and what it reports until then (dashboard/internal/store/compact.go).
use uptime_mesh.Prelude.{
  ℕ, ◌≡◌, refl, Bool, true, false, List, [], ◌∷◌, Option, none, some, arith, leb, not, ◌&&◌, ◌==◌,
  if◌then◌else◌, is_some, Option-cases, Bool-cases, inl, inr,
}
use uptime_mesh.Store.Compact.{
  CompactStage, CompactStatus, CompactWorld, Moment, ticks, context_done, Ended, with_result,
  with_error, waits, set_compact_progress, est_bytes, report_progress, watch, finish, run_compact,
  begun, settled_as, run_compact_tracked,
}

-- Whether the context has ended within some events.
abbrev pub is_over : List Moment → Bool
is_over [] = false
is_over (context_done ∷ es) = true
is_over (ticks wal ∷ es) = is_over es

watch-is_over :
    (percent : ℕ → ℕ → ℕ) (base est : ℕ) (es : List Moment) (st : CompactStatus)
    → (watch percent base est es st).0 ≡ is_over es
unfolding watch
watch-is_over percent base est [] st = refl
watch-is_over percent base est (context_done ∷ es) st = refl
watch-is_over percent base est (ticks wal ∷ es) st =
    watch-is_over percent base est es (report_progress percent base est wal st)

abbrev pub has_result : Ended → Bool
has_result (with_result r) = true
has_result _ = false

-- The progress that is reported before the end is below 100.
abbrev pub below_100 : Option ℕ → Bool
below_100 none = true
below_100 (some p) = leb p 99

report_progress-below_100 :
    (percent : ℕ → ℕ → ℕ) (base est wal : ℕ) (st : CompactStatus)
    → below_100 st.progress ≡ true
    → below_100 (report_progress percent base est wal st).progress ≡ true
unfolding report_progress set_compact_progress
report_progress-below_100 percent base est wal st h = ground (arith, h)

watch-below_100 :
    (percent : ℕ → ℕ → ℕ) (base est : ℕ) (es : List Moment) (st : CompactStatus)
    → below_100 st.progress ≡ true
    → below_100 (watch percent base est es st).1.progress ≡ true
unfolding watch
watch-below_100 percent base est [] st h = h
watch-below_100 percent base est (context_done ∷ es) st h = h
watch-below_100 percent base est (ticks wal ∷ es) st h =
    watch-below_100 percent base est es (report_progress percent base est wal st)
      (report_progress-below_100 percent base est wal st h)

-- The status that `run_compact` leaves is still that of a compaction under way.
run_compact-running : (w : CompactWorld) → below_100 (run_compact w begun).1.progress ≡ true
unfolding run_compact finish set_compact_progress
run_compact-running w = elim (Option-cases w.pages_before) [
  | inl n ↦ ground (arith, n)
  | inr ((before, free, page_size), n) ↦
      let prepared : CompactStatus = record begun {
        stage = CompactStage.preparing;
        progress = some 5;
      } in
      let est = est_bytes before free page_size in
      ground (arith, n, watch-below_100 w.percent w.wal_base est w.events prepared refl)
]

abbrev pub is_waiting : Ended → Bool
is_waiting waits = true
is_waiting _ = false

abbrev pub is_full : Option ℕ → Bool
is_full none = false
is_full (some p) = p == 100

settled_as-progress :
    (e : Ended) (st : CompactStatus)
    → below_100 st.progress ≡ true
    → (if is_waiting e
        then below_100 (settled_as e st).progress
        else is_full (settled_as e st).progress)
      ≡ true
settled_as-progress waits st h = h
settled_as-progress with_error st h = refl
settled_as-progress (with_result r) st h = refl

-- As long as a compaction waits, the progress that it reports is below 100, or unknown; once it has
-- ended, with a result or an error, it is 100.
pub run_compact_tracked-progress :
    (w : CompactWorld)
    → let t = run_compact_tracked w in
      (if is_waiting t.0 then below_100 t.1.progress else is_full t.1.progress) ≡ true
unfolding run_compact_tracked
run_compact_tracked-progress w =
    let (e, st) = run_compact w begun in settled_as-progress e st (run_compact-running w)

-- Suppose, as is documented of `database/sql`, that a statement whose context has ended fails; here:
-- the checkpoint after `VACUUM`, if the context ends before it. Then no compaction ends with a
-- result. And it waits, for a goroutine that nothing but the end of the context ends, exactly if
-- what comes before `VACUUM` does not fail and the context has not ended.
pub run_compact_tracked-has_result :
    (w : CompactWorld)
    → (is_over w.events ≡ true → w.last_checkpoint_fails ≡ true)
    → let t = run_compact_tracked w in
      (has_result t.0 ≡ false)
      × (is_waiting t.0
          ≡ is_some w.pages_before && (not w.first_checkpoint_fails && not (is_over w.events)))
unfolding run_compact_tracked run_compact finish
run_compact_tracked-has_result w h = elim (Option-cases w.pages_before) [
  | inl n ↦ (ground (arith, n), ground (arith, n))
  | inr ((before, free, page_size), n) ↦
      let prepared = set_compact_progress CompactStage.preparing (some 5) begun in
      let est = est_bytes before free page_size in
      let over = watch-is_over w.percent w.wal_base est w.events prepared in
      (
        elim (Bool-cases (is_over w.events)) [
          | inl o ↦ ground (arith, n, over, o, h o)
          | inr o ↦ ground (arith, n, over, o)
        ],
        elim (Bool-cases (is_over w.events)) [
          | inl o ↦ ground (arith, n, over, o, h o)
          | inr o ↦ ground (arith, n, over, o)
        ],
      )
]
