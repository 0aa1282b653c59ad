-- ===== src/Examples.antt =====
-- The theorems at concrete inputs, and runs of the model. The values are whole numbers here.
mod Data
mod Alerts
mod Rounds
mod Flights
pub mod Ticks
mod Closings
mod Results
mod Connections
mod Sites
mod Tables
mod Usages
mod Specs
mod Probes
mod Browsers
mod Histories
