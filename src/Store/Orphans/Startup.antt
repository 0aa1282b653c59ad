-- ===== src/Store/Orphans/Startup.antt =====
-- What `CloseOrphanOpenRounds` (dashboard/internal/store/rounds.go) leaves behind.
use uptime_mesh.Prelude.{ℕ, ◌≡◌, false, Bool, List, String, arith, count_if}
use uptime_mesh.Prelude.Float64.{Float64}
use uptime_mesh.Store.Rounds.{CheckResult, is_open}
use uptime_mesh.Store.Rounds.Closing.{force_close_none_open}
use uptime_mesh.Store.Orphans.{
  Books, Faults, close_orphan_open_rounds, list_orphan_open_rounds, recover_all,
}

module _ {F : Type 0} (fl : Float64 F) where
  -- If its last statement, the sweep, does not fail, a start leaves no round OPEN, whichever of the
  -- other statements fail: the listing, the reading of samples, the closings, the hour's counters.
  pub close_orphans_none_open :
      (faults : Faults) (is_download : String → Bool) (results : List (CheckResult F)) (now : ℕ)
      (books : Books F)
      → faults.sweep_fails ≡ false
      → let t = (close_orphan_open_rounds fl faults is_download results now books).0 in
        count_if (λ r. is_open r.state) t.rounds ≡ 0
  unfolding close_orphan_open_rounds
  close_orphans_none_open faults is_download results now books h =
      let orphans = list_orphan_open_rounds is_download books.rounds in
      ground (
        arith,
        force_close_none_open fl books.rounds now,
        force_close_none_open fl (recover_all fl faults results now books orphans).0.rounds now,
      )
