-- ===== src/Orchestrator/Call/Invariant.antt =====
-- What holds after any order of events in a call: one voice at a time, and silence after `stop`.
pub mod Steps
pub mod Runs
