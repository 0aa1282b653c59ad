-- ===== src/Store.antt =====
-- dashboard/internal/store: the tables that the scheduler writes, and their statements. A table is
-- the list of its rows in the order of insertion (the order of `rowid`); what SQLite does for a
-- statement is written out over that list. A statement may fail: its caller says whether it does.
pub mod Id
pub mod Rounds
pub mod States
pub mod Orphans
pub mod Agents
pub mod Monitors
pub mod Prune
pub mod Compact
pub mod Usage
use uptime_mesh.Prelude.{ℕ, ◌/◌}

-- `unixSec`: a stored time has whole seconds; 0 stands for the zero time on both sides.
abbrev pub unix_sec : ℕ → ℕ
unix_sec t = t / 1_000_000_000
