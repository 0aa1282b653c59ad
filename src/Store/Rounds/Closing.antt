-- ===== src/Store/Rounds/Closing.antt =====
-- `CloseRound` and `forceCloseOpenRounds` of dashboard/internal/store/rounds.go.
use uptime_mesh.Prelude.{
  ℕ, ◌≡◌, refl, false, List, [], ◌∷◌, String, arith, ◌==◌, if◌then◌else◌, count_if, map, ap, ◌∙◌,
}
use uptime_mesh.Prelude.Float64.{Float64}
use uptime_mesh.Store.Rounds.{
  is_open, Round, RoundClose, closes, write_close, close_round, force_close_open_rounds,
}

module _ {F : Type 0} where
  closes-close_round :
      (rows : List (Round F)) (id : String) (upd : RoundClose F) (now : ℕ)
      → is_open upd.state ≡ false
      → count_if (closes id) (close_round rows id upd now).0 ≡ 0
  unfolding close_round
  closes-close_round [] id upd now h = refl
  closes-close_round (r ∷ rows) id upd now h = ground (arith, closes-close_round rows id upd now h)

  close_nothing :
      (rows : List (Round F)) (id : String) (upd : RoundClose F) (now : ℕ)
      → count_if (closes id) rows ≡ 0
      → map (λ r. if closes id r then write_close upd now r else r) rows ≡ rows
  close_nothing [] id upd now h = refl
  close_nothing (r ∷ rows) id upd now h = ground (arith, close_nothing rows id upd now)

  close_round_none :
      (rows : List (Round F)) (id : String) (upd : RoundClose F) (now : ℕ)
      → count_if (closes id) rows ≡ 0
      → close_round rows id upd now ≡ (rows, false)
  unfolding close_round
  close_round_none rows id upd now h =
      ap (λ n. (map (λ r. if closes id r then write_close upd now r else r) rows, n == 1)) h
      ∙ ap (λ (rs : List (Round F)). (rs, false)) (close_nothing rows id upd now h)

  -- A row is closed at most once: whatever two callers write, the first with a state that is not
  -- OPEN, the second of two closings of one id changes no row, and reports that it did not.
  pub close_round-once :
      (rows : List (Round F)) (id : String) (upd upd' : RoundClose F) (now now' : ℕ)
      → is_open upd.state ≡ false
      → let once = (close_round rows id upd now).0 in close_round once id upd' now' ≡ (once, false)
  close_round-once rows id upd upd' now now' h =
      close_round_none (close_round rows id upd now).0 id upd' now'
        (closes-close_round rows id upd now h)

  -- After the sweep at a start no round is OPEN.
  pub force_close_none_open :
      (fl : Float64 F) (rows : List (Round F)) (now : ℕ)
      → count_if (λ r. is_open r.state) (force_close_open_rounds fl rows now).0 ≡ 0
  unfolding force_close_open_rounds
  force_close_none_open fl [] now = refl
  force_close_none_open fl (r ∷ rows) now = ground (arith, force_close_none_open fl rows now)
