-- ===== src/Scheduler/Intake/Late.antt =====
-- A result of a round that is no longer open (`handleResult` of
-- dashboard/internal/scheduler/scheduler.go).
use uptime_mesh.Prelude.{◌≡◌, refl, true, none, some, String, arith, lookup, if◌then◌else◌}
use uptime_mesh.Prelude.Float64.{Float64}
use uptime_mesh.Store.Id.{id_from_hex}
use uptime_mesh.Store.Rounds.{CheckResult, insert_result}
use uptime_mesh.Scheduler.World.{Scheduler, World}
use uptime_mesh.Scheduler.Intake.{ProbeResultPayload, row_of, intake, handle_result}

module _ {F : Type 0} (fl : Float64 F) where
  -- A result with valid ids whose round is not among the open ones is stored, if the statement
  -- does not fail, as one late row with the verdict as the agent gave it; nothing else of the
  -- scheduler changes: no round is touched, no alert moves, nobody is notified.
  handle_result_late :
      (w : World F) (s : Scheduler F) (agent_id round_id monitor_id : String)
      (p : ProbeResultPayload F)
      → id_from_hex p.round_id ≡ some round_id
      → id_from_hex p.monitor_id ≡ some monitor_id
      → lookup round_id s.rounds ≡ none
      → (row : CheckResult F) × (row.late ≡ true)
        × (row.ok ≡ p.ok)
        × (row.round_id ≡ round_id)
        × (row.agent_id ≡ agent_id)
        × (handle_result fl w s agent_id p ≡ (
            if w.result_insert_fails then s else record s {
              db = record (s.db) { results = insert_result s.db.results row w.now };
            }))
  unfolding handle_result intake
  handle_result_late w s agent_id round_id monitor_id p e f h =
      let row = row_of fl round_id monitor_id agent_id p none in
      (
        record row { late = true },
        refl,
        unfold row_of in refl,
        unfold row_of in refl,
        unfold row_of in refl,
        ground arith,
      )
