-- ===== src/Persistence/TakenKey.antt =====
-- app/persistence/repositories.py under a key that is taken: what `create` does, and what `mark_ended`
-- does, which `stop` of app/pipeline/orchestrator.py calls also after a `start` that raised.
