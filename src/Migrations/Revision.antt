-- ===== src/Migrations/Revision.antt =====
-- migrations/versions/20260419_0700_0001_initial_schema.py.
use fastapi_claude_voice_age.Base.{true, false, some, [], ◌∷◌}
use fastapi_claude_voice_age.Python.{Result, ◌>>=◌}
use fastapi_claude_voice_age.Migrations.{
  string, date_time, integer, text, json, Table, Index, column, key, call_sid_key, Operations,
}

unfoldable pub call_sessions : Table
unfolding column key
call_sessions = record {
  name = "call_sessions";
  columns =
      key (column "call_sid" (string 64))
      ∷ record (column "from_number" (string 32)) { nullable = false }
      ∷ record (column "started_at" (date_time true)) {
        server_default = some "now()";
        nullable = false;
      }
      ∷ column "ended_at" (date_time true)
      ∷ [];
}

unfoldable pub transcript_turns : Table
unfolding column key call_sid_key
transcript_turns = record {
  name = "transcript_turns";
  columns =
      record (key (column "id" integer)) { autoincrement = true }
      ∷ record (column "call_sid" (string 64)) { references = some call_sid_key; nullable = false }
      ∷ record (column "role" (string 16)) { nullable = false }
      ∷ record (column "text" text) { nullable = false }
      ∷ column "latency_ms" integer
      ∷ record (column "created_at" (date_time true)) {
        server_default = some "now()";
        nullable = false;
      }
      ∷ [];
}

unfoldable pub tool_calls : Table
unfolding column key call_sid_key
tool_calls = record {
  name = "tool_calls";
  columns =
      record (key (column "id" integer)) { autoincrement = true }
      ∷ record (column "call_sid" (string 64)) { references = some call_sid_key; nullable = false }
      ∷ record (column "tool_name" (string 64)) { nullable = false }
      ∷ record (column "input_json" json) { nullable = false }
      ∷ record (column "output_json" json) { nullable = false }
      ∷ column "latency_ms" integer
      ∷ record (column "created_at" (date_time true)) {
        server_default = some "now()";
        nullable = false;
      }
      ∷ [];
}

unfoldable pub ix_from_number : Index
ix_from_number = record {
  name = "ix_call_sessions_from_number";
  table = "call_sessions";
  columns = "from_number" ∷ [];
}

unfoldable pub ix_turns : Index
ix_turns = record {
  name = "ix_transcript_turns_call_sid";
  table = "transcript_turns";
  columns = "call_sid" ∷ [];
}

unfoldable pub ix_tool_calls : Index
ix_tool_calls = record {
  name = "ix_tool_calls_call_sid";
  table = "tool_calls";
  columns = "call_sid" ∷ [];
}

module _ {S : Type 0} (op : Operations S) where
  unfoldable pub upgrade : S → Result S
  unfolding call_sessions transcript_turns tool_calls ix_from_number ix_turns ix_tool_calls
  upgrade s = do
    s1 ← op.create_table call_sessions s
    s2 ← op.create_index ix_from_number s1
    s3 ← op.create_table transcript_turns s2
    s4 ← op.create_index ix_turns s3
    s5 ← op.create_table tool_calls s4
    op.create_index ix_tool_calls s5

  unfoldable pub downgrade : S → Result S
  downgrade s = do
    s1 ← op.drop_index "ix_tool_calls_call_sid" "tool_calls" s
    s2 ← op.drop_table "tool_calls" s1
    s3 ← op.drop_index "ix_transcript_turns_call_sid" "transcript_turns" s2
    s4 ← op.drop_table "transcript_turns" s3
    s5 ← op.drop_index "ix_call_sessions_from_number" "call_sessions" s4
    op.drop_table "call_sessions" s5
