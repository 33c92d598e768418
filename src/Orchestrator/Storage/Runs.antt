-- ===== src/Orchestrator/Storage/Runs.antt =====
-- After any run of a call the tables hold its turns and tool calls, in their order.
use fastapi_claude_voice_age.Base.{
  ◌≡◌, sym, subst, ℕ, suc, ◌≤◌, ◌<◌, String, true, false, List, [], ◌∷◌, map, All,
}
use fastapi_claude_voice_age.Python.{Result, ok}
use fastapi_claude_voice_age.Persistence.{
  Ties, Database, TranscriptTurn, ToolCallRecord, fits, exists, turns_of, tool_calls_of,
}
use fastapi_claude_voice_age.Persistence.Stored.{turn_of, use_of, Holds, create-Holds}
use fastapi_claude_voice_age.Orchestrator.Playback.{Transport}
use fastapi_claude_voice_age.Orchestrator.Call.{session, Call, Event, start, run}
use fastapi_claude_voice_age.Orchestrator.Storage.{store, store_all}
use fastapi_claude_voice_age.Orchestrator.Storage.Rows.{
  turn_rows, use_rows, EventFits, store_all-Holds,
}
use fastapi_claude_voice_age.Orchestrator.Storage.Written.{
  IsWritten, start-IsWritten, run-IsWritten,
}

module _ (ties : Ties) (clock : ℕ → ℕ) (forward : (n : ℕ) → clock n < clock (suc n)) where
  -- The writes of a call into tables that do not know it yet.
  written-Holds :
      (sid from_number : String) (c : Call) (db : Database)
      → IsWritten sid from_number c
      → exists sid db ≡ false
      → fits 64 sid ≡ true
      → fits 32 from_number ≡ true
      → All (λ (t : TranscriptTurn). t.created_at ≤ clock 0) db.turns
      → All (λ (t : ToolCallRecord). t.created_at ≤ clock 0) db.tool_calls
      → turns_of ties sid db ≡ []
      → tool_calls_of ties sid db ≡ []
      → (db' : Database) × (m : ℕ) × (store_all sid clock 0 c.rows db ≡ ok db')
        × Holds ties sid (clock m) db' (turn_rows c.rows) (use_rows c.rows)
  unfolding store_all store
  written-Holds sid from_number c db v fresh room short old_turns old_uses no_turns no_uses =
      let (db1, e, w) =
        create-Holds ties sid from_number (clock 0) db fresh room short old_turns old_uses no_turns
          no_uses in
      let (db2, m, f, u) = store_all-Holds ties sid clock forward v.rest 0 db1 [] [] w v.storable in
      let first : store_all sid clock 0 (session sid from_number ∷ v.rest) db ≡ ok db2 = rw e f in
      (
        db2,
        m,
        rw v.rows_are first,
        subst (λ rows. Holds ties sid (clock m) db2 (turn_rows rows) (use_rows rows))
            (sym v.rows_are) u,
      )

  -- If `start` returns, the tables know neither the call nor rows of it and hold no row younger than
  -- its first write, its key and number fit their columns and so do the names of the tools that the
  -- model calls, then after any events all writes of the call succeed when they are made one after
  -- another, each at a later time than the one before, and the tables then hold exactly its turns and
  -- its tool calls, in the order in which the call made them, however the database orders rows of the
  -- same time.
  pub stored-run :
      (transport : Transport) (stream_sid sid from_number : String)
      (connected created : Result (Unit {0})) (c : Call) (es : List Event) (db : Database)
      → start transport stream_sid sid from_number connected created ≡ ok c
      → All EventFits es
      → exists sid db ≡ false
      → fits 64 sid ≡ true
      → fits 32 from_number ≡ true
      → All (λ (t : TranscriptTurn). t.created_at ≤ clock 0) db.turns
      → All (λ (t : ToolCallRecord). t.created_at ≤ clock 0) db.tool_calls
      → turns_of ties sid db ≡ []
      → tool_calls_of ties sid db ≡ []
      → (db' : Database) × (store_all sid clock 0 (run c es).rows db ≡ ok db')
        × (map turn_of (turns_of ties sid db') ≡ turn_rows (run c es).rows)
        × (map use_of (tool_calls_of ties sid db') ≡ use_rows (run c es).rows)
  stored-run transport stream_sid sid from_number connected created c es db h f fresh room short
        old_turns old_uses no_turns no_uses =
      let v =
        run-IsWritten sid from_number c es f
          (start-IsWritten sid from_number transport stream_sid connected created c h) in
      let (db', m, e, w) =
        written-Holds sid from_number (run c es) db v fresh room short old_turns old_uses no_turns
          no_uses in
      (db', e, w.turns_are, w.uses_are)
