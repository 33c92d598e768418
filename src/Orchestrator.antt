-- ===== src/Orchestrator.antt =====
-- app/pipeline/orchestrator.py: `CallOrchestrator`, which joins speech recognition, the model and
-- speech synthesis in one call.
pub mod Playback
pub mod Call
pub mod Live
pub mod Storage
mod Tests
