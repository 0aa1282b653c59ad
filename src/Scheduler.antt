-- ===== src/Scheduler.antt =====
-- dashboard/internal/scheduler: probe rounds, from the decision to open one to its closing.
pub mod Plan
pub mod Round
pub mod Flight
pub mod Monitor
pub mod World
pub mod Finalize
pub mod Intake
pub mod Dispatch
pub mod Push
pub mod Cycle
pub mod Registered
