-- ===== src/Llm.antt =====
-- app/pipeline/llm_claude.py: one turn of the conversation with the model. What the API answers is
-- an input, a list of answers: the SDK's stream and its final message, or an exception of it.
mod Replies
pub mod Agent
pub mod Steps
pub mod Conversation
pub mod Requests
pub mod Sums
pub mod Rounds
pub mod Turns
mod Tests
unfoldable pub use Replies.*
use fastapi_claude_voice_age.Base.{
  ℕ, ◌+◌, Bool, true, false, String, ◌<>◌, Option, none, some, List, [], ◌∷◌, ◌++◌, map, ◌==◌,
  if◌then◌else◌,
}
use fastapi_claude_voice_age.Python.{Fields, Exn, is_blank}
use fastapi_claude_voice_age.Tools.World.{World, latency_ms}
use fastapi_claude_voice_age.Tools.Registry.{ToolRegistry, execute}

-- The variables of `run_turn` and `_messages`, with the clock. `requests` are the message lists sent
-- to the API so far, and `chunks` what the callback was given.
pub record Loop : Type 0 where
  pub messages : List Message
  pub result : TurnResult
  pub world : World
  pub requests : List (List Message)
  pub chunks : List StreamedChunk

-- `waiting`: the last request has no answer yet.
pub data Turn : Type 0 where
  finished : Loop → Turn
  raised : Exn → Loop → Turn
  waiting : Loop → Turn

abbrev pub Tooled : Type 0
Tooled = record { calls : List ToolCall; results : List ToolResult; world : World }

-- A request goes out with the messages so far.
unfoldable pub send : Loop → Loop
send s = record s { requests = s.requests ++ (s.messages ∷ []) }

-- From the return of `_stream_once` to the append of the assistant message.
unfoldable pub absorb : Bool → Reply → Loop → Loop
unfolding text_of chunks_of
absorb listening r s = record s {
  messages = s.messages ++ (assistant r.content ∷ []);
  result = record s.result {
    text = s.result.text <> text_of r;
    input_tokens = s.result.input_tokens + r.usage.input_tokens;
    output_tokens = s.result.output_tokens + r.usage.output_tokens;
    cache_read_tokens = s.result.cache_read_tokens + or_zero r.usage.cache_read_input_tokens;
    cache_creation_tokens =
        s.result.cache_creation_tokens + or_zero r.usage.cache_creation_input_tokens;
  };
  world = record s.world { now = s.world.now + r.took };
  chunks = s.chunks ++ chunks_of listening r;
}

unfoldable pub fall_back : Loop → Loop
unfolding is_blank
fall_back s = record s {
  result = record s.result {
    text = if is_blank s.result.text then refusal_fallback_text else s.result.text;
  };
}

-- `latency_ms` after the loop.
unfoldable pub close_turn : ℕ → Loop → Loop
unfolding latency_ms
close_turn started s = record s {
  result = record s.result { latency_ms = latency_ms started s.world };
}

abbrev pub empty_result : TurnResult
empty_result = record {
  text = "";
  tool_calls = [];
  input_tokens = 0;
  output_tokens = 0;
  cache_read_tokens = 0;
  cache_creation_tokens = 0;
  latency_ms = 0;
}

-- The variables before the loop.
unfoldable pub begin : List Message → World → Loop
begin messages w = record {
  messages = messages;
  result = empty_result;
  world = w;
  requests = [];
  chunks = [];
}

-- `dumps` is `json.dumps(output, ensure_ascii=False, default=str)`.
module _ (dumps : Fields → String) (registry : ToolRegistry) where
  -- The `for` loop over the tool uses.
  unfoldable pub run_tools : List ToolUse → World → Tooled
  unfolding latency_ms
  run_tools [] w = record { calls = []; results = []; world = w }
  run_tools (u ∷ us) w =
      let (output, w') = execute registry u.name u.input w in
      let rest = run_tools us w' in
      record {
        calls =
            record {
              name = u.name;
              input = u.input;
              output = output;
              latency_ms = latency_ms w.now w';
            }
            ∷ rest.calls;
        results = record { tool_use_id = u.id; content = dumps output } ∷ rest.results;
        world = rest.world;
      }

  -- The tool uses are run, and their results sent back as a user message.
  unfoldable pub feed_back : List ToolUse → Loop → Loop
  unfolding run_tools
  feed_back us s =
      let t = run_tools us s.world in
      record s {
        messages = s.messages ++ (tool_results t.results ∷ []);
        result = record s.result { tool_calls = s.result.tool_calls ++ t.calls };
        world = t.world;
      }

  -- The `while True` loop, an answer of the API at a time.
  unfoldable pub run_loop : Bool → ℕ → List Answer → Loop → Turn
  unfolding send absorb fall_back feed_back close_turn is_refusal tool_uses delta_chunks
  run_loop listening started [] s = waiting (send s)
  run_loop listening started (failed es e ∷ more) s =
      raised e (record (send s) { chunks = s.chunks ++ delta_chunks listening es })
  run_loop listening started (replied r ∷ more) s =
      let s' = absorb listening r (send s) in
      elim (is_refusal r) [
        | true ↦ finished (close_turn started (fall_back s'))
        | false ↦ elim (tool_uses r.content) [
          | [] ↦ finished (close_turn started s')
          | u ∷ us ↦ run_loop listening started more (feed_back (u ∷ us) s')
        ]
      ]

  unfoldable pub run_turn : Bool → List Message → World → List Answer → Turn
  unfolding run_loop begin
  run_turn listening messages w answers = run_loop listening w.now answers (begin messages w)

-- `add_user_text`
unfoldable pub add_user_text : String → List Message → List Message
add_user_text s ms = ms ++ (user_text s ∷ [])
