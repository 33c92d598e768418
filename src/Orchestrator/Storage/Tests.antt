-- ===== src/Orchestrator/Storage/Tests.antt =====
-- A call whose writes go into empty tables.
use fastapi_claude_voice_age.Base.{
  ◌≡◌, refl, arith, true, false, none, some, List, [], ◌∷◌, ◌++◌, map,
}
use fastapi_claude_voice_age.Python.{end, Result, ok, raise, other}
use fastapi_claude_voice_age.Llm.{TurnResult, ToolCall}
use fastapi_claude_voice_age.Persistence.{
  Ties, create, add_turn, add_tool_call, Database, exists, turns_of, tool_calls_of, kept, order_by,
}
use fastapi_claude_voice_age.Persistence.Stored.{turn_of, use_of}
use fastapi_claude_voice_age.Orchestrator.Playback.{twilio}
use fastapi_claude_voice_age.Orchestrator.Call.{
  Row, session, turn, tool_call, ended, Call, Event, transcribed, consumer_wakes, ready, answered,
  listening, start, run, step, speak, consume,
}
use fastapi_claude_voice_age.Orchestrator.Storage.{store, store_all}
use fastapi_claude_voice_age.Persistence.Engine.{Engine, session_scope}
use fastapi_claude_voice_age.Orchestrator.Storage.Scope.{write_all, session_scope-write_all}
use fastapi_claude_voice_age.Orchestrator.Storage.Rows.{turn_rows, use_rows}
use fastapi_claude_voice_age.Orchestrator.Storage.Runs.{stored-run}

abbrev empty : Database
empty = record { sessions = []; turns = []; tool_calls = []; last_turn = 0; last_tool_call = 0 }

abbrev booking_reply : TurnResult
booking_reply = record {
  text = "Done.";
  tool_calls = record { name = "book_slot"; input = end; output = end; latency_ms = 4 } ∷ [];
  input_tokens = 0;
  output_tokens = 0;
  cache_read_tokens = 0;
  cache_creation_tokens = 0;
  latency_ms = 9;
}

abbrev talk : List Event
talk =
    transcribed "a slot" true
    ∷ consumer_wakes ready
    ∷ consumer_wakes ready
    ∷ consumer_wakes ready
    ∷ consumer_wakes (answered booking_reply 11)
    ∷ consumer_wakes ready
    ∷ consumer_wakes ready
    ∷ []

abbrev blank : Call
blank = record {
  transport = twilio;
  stream_sid = "";
  queue = [];
  consumer = listening;
  consumer_cancelled = false;
  current = none;
  former = [];
  user_texts = [];
  rows = [];
  frames = [];
  stopped = false;
  closed = false;
}

abbrev fallen_back : Result Call → Call
fallen_back (ok c) = c
fallen_back (raise e) = blank

abbrev fresh : Call
fresh = fallen_back (start twilio "MZ1" "CA1" "+1" (ok tt) (ok tt))

started : start twilio "MZ1" "CA1" "+1" (ok tt) (ok tt) ≡ ok fresh
unfolding start
started = refl

talk_turns :
    turn_rows (run fresh talk).rows
    ≡ ("user", "a slot", none) ∷ ("assistant", "Done.", some 11) ∷ []
unfolding start run step speak consume
talk_turns = refl

-- Rows of the same time come as they may; here as they were inserted.
abbrev no_ties : Ties
no_ties = record { turns = λ t u. true; tool_calls = λ t u. true }

unknown : exists "CA1" empty ≡ false
unfolding exists
unknown = refl

no_turns : turns_of no_ties "CA1" empty ≡ []
unfolding turns_of kept order_by
no_turns = refl

no_tool_calls : tool_calls_of no_ties "CA1" empty ≡ []
unfolding tool_calls_of kept order_by
no_tool_calls = refl

stored-run_example :
    (db' : Database) × (store_all "CA1" (λ n. n) 0 (run fresh talk).rows empty ≡ ok db')
    × (map turn_of (turns_of no_ties "CA1" db') ≡ turn_rows (run fresh talk).rows)
    × (map use_of (tool_calls_of no_ties "CA1" db') ≡ use_rows (run fresh talk).rows)
stored-run_example =
    stored-run no_ties (λ n. n) (λ n. omega arith) twilio "MZ1" "CA1" "+1" (ok tt) (ok tt) fresh
      talk empty started (tt, (tt, (tt, (tt, ((refl, tt), (tt, (tt, tt))))))) unknown refl refl tt
      tt no_turns no_tool_calls

-- A reply with a tool call of a name that does not fit its column.
abbrev made_up : ToolCall
made_up = record {
  name = "a_tool_whose_name_the_model_has_made_up_and_that_is_much_too_long_for_it";
  input = end;
  output = end;
  latency_ms = 1;
}

abbrev told : List Row
told = session "CA1" "+1" ∷ turn "assistant" "Done." (some 9) ∷ []

abbrev half_stored : Database
half_stored = record {
  sessions = record { call_sid = "CA1"; from_number = "+1"; started_at = 0; ended_at = none } ∷ [];
  turns =
      record {
        id = 1;
        call_sid = "CA1";
        role = "assistant";
        text = "Done.";
        latency_ms = some 9;
        created_at = 1;
      }
      ∷ [];
  tool_calls = [];
  last_turn = 1;
  last_tool_call = 0;
}

abbrev at_home : Engine
at_home = record { engine = some "postgresql://"; sessionmaker = some "postgresql://" }

told_stored : store_all "CA1" (λ n. n) 0 told empty ≡ ok half_stored
unfolding store_all store create add_turn exists
told_stored = refl

made_up_refused : store "CA1" (tool_call made_up) 2 half_stored ≡ raise (other "DBAPIError")
unfolding store add_tool_call
made_up_refused = refl

session_scope-write_all_example :
    session_scope
      (λ s. write_all "CA1" (λ n. n) 0 (told ++ (tool_call made_up ∷ ended ∷ [])) (s, ok tt))
      at_home
      empty
    ≡ (half_stored, raise (other "DBAPIError"))
session_scope-write_all_example =
    session_scope-write_all "CA1" (λ n. n) told (ended ∷ []) (tool_call made_up) 0 empty half_stored
      (other "DBAPIError") at_home "postgresql://" refl told_stored made_up_refused
