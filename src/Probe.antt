-- ===== src/Probe.antt =====
-- shared/probe: what an agent's probe makes of an answer. The network is not modelled.
pub mod Keyword
