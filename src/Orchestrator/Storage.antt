-- ===== src/Orchestrator/Storage.antt =====
-- The writes of a call, as the calls of `SessionRepository` that app/pipeline/orchestrator.py makes
-- for them, each in a `session_scope` of its own or with a commit of its own.
pub mod Rows
pub mod Written
pub mod Runs
pub mod Scope
mod Tests
use fastapi_claude_voice_age.Base.{ℕ, suc, String, some, List, [], ◌∷◌}
use fastapi_claude_voice_age.Python.{Result, ok, raise, ◌>>=◌}
use fastapi_claude_voice_age.Llm.{ToolCall}
use fastapi_claude_voice_age.Persistence.{Database, create, mark_ended, add_turn, add_tool_call}
use fastapi_claude_voice_age.Orchestrator.Call.{Row, session, turn, tool_call, ended}

-- One write of the call `sid` at the time `now`.
unfoldable pub store : String → Row → ℕ → Database → Result Database
store sid (session call_sid from_number) now db = create call_sid from_number now db
store sid (turn role text latency_ms) now db = add_turn sid role text latency_ms now db
store sid (tool_call t) now db =
    add_tool_call sid t.name t.input t.output (some t.latency_ms) now db
store sid ended now db = ok (mark_ended sid now db)

-- All of them; `clock n` is the time of the n-th.
unfoldable pub store_all : String → (ℕ → ℕ) → ℕ → List Row → Database → Result Database
unfolding store
store_all sid clock n [] db = ok db
store_all sid clock n (row ∷ rows) db = do
  db' ← store sid row (clock n) db
  store_all sid clock (suc n) rows db'
