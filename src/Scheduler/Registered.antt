-- ===== src/Scheduler/Registered.antt =====
-- The map of open rounds of dashboard/internal/scheduler/scheduler.go, under all handlers.
pub mod Rounds
pub mod Steps
pub mod Openings
pub mod Ticks
use uptime_mesh.Prelude.{◌≡◌, false, some, String, lookup}
use uptime_mesh.Store.Id.{id_from_hex}
use uptime_mesh.Scheduler.Flight.{InFlightRound}
use uptime_mesh.Scheduler.World.{Scheduler}

-- Each round stands under the id that it has, and none is closed.
abbrev pub Registered : {F : Type 0} → Scheduler F → Type 0
Registered {F} s =
    (k : String) (r : InFlightRound F)
    → lookup k s.rounds ≡ some r
    → (id_from_hex r.spec.round_id ≡ some k) × (r.closed ≡ false)
