-- ===== src/Examples/Probes.antt =====
-- A JSON text with one Chinese character, as an encoder that keeps to ASCII writes it; and a
-- compaction that runs until its time is over.
use uptime_mesh.Prelude.{
  ℕ, ◌≡◌, refl, arith, true, false, not, ◌&&◌, ◌||◌, List, [], ◌∷◌, some, is_some, if◌then◌else◌,
  length,
}
use uptime_mesh.Probe.Keyword.{
  contains, contains_keyword, keyword_candidates, decode_loop, write_rune,
}
use uptime_mesh.Probe.Keyword.Escapes.{escaped, utf8, decode_loop-escaped}
use uptime_mesh.Probe.Keyword.Found.{contains_keyword-escaped}
use uptime_mesh.Probe.Keyword.Fuel.{decode_loop-length}
use uptime_mesh.Store.Compact.{CompactWorld, ticks, context_done, run_compact_tracked}
use uptime_mesh.Store.Compact.Progress.{
  has_result, is_waiting, is_full, below_100, is_over, run_compact_tracked-has_result,
  run_compact_tracked-progress,
}

abbrev quoted : List ℕ
quoted = 34 ∷ 30331 ∷ 34 ∷ []

abbrev keyword : List ℕ
keyword = 231 ∷ 153 ∷ 187 ∷ []

as_utf8 : write_rune 30331 ≡ keyword
unfolding write_rune
as_utf8 = refl

as_ascii : length (escaped quoted) ≡ 8
as_ascii = refl

decode_loop-escaped_example : decode_loop 8 (escaped quoted) ≡ utf8 quoted
decode_loop-escaped_example =
    decode_loop-escaped quoted 8 (refl, (refl, (refl, omega arith))) (omega arith)

contains_keyword-escaped_example :
    contains_keyword (keyword_candidates (λ body. true) (escaped quoted)) keyword
    ≡ contains (escaped quoted) keyword || contains (utf8 quoted) keyword
contains_keyword-escaped_example =
    contains_keyword-escaped (λ body. true) quoted keyword (refl, (refl, (refl, omega arith))) refl

decode_loop-length_example : decode_loop 8 (escaped quoted) ≡ decode_loop 9 (escaped quoted)
decode_loop-length_example = decode_loop-length 8 9 (escaped quoted) (omega arith) (omega arith)

abbrev compacts : CompactWorld
compacts = record {
  pages_before = some (4096000, 500, 4096);
  wal_before = 0;
  first_checkpoint_fails = false;
  wal_base = 0;
  percent = λ grown est. 90;
  events = ticks 1024000 ∷ ticks 2048000 ∷ context_done ∷ [];
  vacuum_fails = false;
  last_checkpoint_fails = true;
  pages_after = some (2048000, 0, 4096);
  wal_after = 0;
}

run_compact_tracked-has_result_example :
    let t = run_compact_tracked compacts in
    (has_result t.0 ≡ false)
    × (is_waiting t.0
        ≡ is_some compacts.pages_before
          && (not compacts.first_checkpoint_fails && not (is_over compacts.events)))
run_compact_tracked-has_result_example = run_compact_tracked-has_result compacts (λ o. refl)

run_compact_tracked-progress_example :
    let t = run_compact_tracked compacts in
    (if is_waiting t.0 then below_100 t.1.progress else is_full t.1.progress) ≡ true
run_compact_tracked-progress_example = run_compact_tracked-progress compacts
