-- ===== src/Llm/Requests.antt =====
-- What `ClaudeAgent` sends to the API: `__init__` with what stays the same for a call, the request of
-- `_stream_once`, and the requests of the turns of a call, one after another.
pub mod Growth
use fastapi_claude_voice_age.Base.{
  ◌≡◌, refl, sym, ap, ◌∙◌, subst, ℕ, false, String, List, [], ◌∷◌, ◌++◌, map,
}
use mathlib.Core.List.{append_assoc, append-nil}
use fastapi_claude_voice_age.Python.{Fields, str, field, end, Exn}
use fastapi_claude_voice_age.Python.Numbers.{Float}
use fastapi_claude_voice_age.Settings.{Settings}
use fastapi_claude_voice_age.Tools.World.{World}
use fastapi_claude_voice_age.Tools.Registry.{ToolRegistry}
use fastapi_claude_voice_age.Llm.{
  Message, Answer, replied, failed, Loop, Turn, finished, raised, waiting, send, absorb, fall_back,
  feed_back, close_turn, begin, run_loop, run_turn, add_user_text,
}
use fastapi_claude_voice_age.Llm.Conversation.{loop_of}
use fastapi_claude_voice_age.Llm.Agent.{build_system_blocks, build_tool_blocks}

-- The arguments of `AsyncAnthropic`.
pub record Client : Type 0 where
  pub api_key : String
  pub timeout : Float
  pub max_retries : ℕ

-- The messages, which change, are kept apart.
pub record ClaudeAgent : Type 0 where
  pub client : Client
  pub model : String
  pub max_tokens : ℕ
  pub system : List Fields
  pub tools : List Fields

-- `__init__` without a client of its own; `prompt` is the text of prompts/system.md.
unfoldable pub new_agent : (prompt : String) → Settings → ToolRegistry → ClaudeAgent
unfolding build_system_blocks build_tool_blocks
new_agent prompt settings registry = record {
  client = record {
    api_key = settings.anthropic_api_key;
    timeout = settings.anthropic_timeout_s;
    max_retries = settings.anthropic_max_retries;
  };
  model = settings.anthropic_model;
  max_tokens = settings.anthropic_max_tokens;
  system = build_system_blocks prompt;
  tools = build_tool_blocks registry;
}

-- The arguments of `messages.stream`.
pub record Request : Type 0 where
  pub model : String
  pub max_tokens : ℕ
  pub system : List Fields
  pub tools : List Fields
  pub messages : List Message
  pub thinking : Fields
  pub output_config : Fields

unfoldable pub stream_request : ClaudeAgent → List Message → Request
stream_request agent messages = record {
  model = agent.model;
  max_tokens = agent.max_tokens;
  system = agent.system;
  tools = agent.tools;
  messages = messages;
  thinking = field "type" (str "adaptive") (field "display" (str "summarized") end);
  output_config = field "effort" (str "xhigh") end;
}

abbrev pub Talk : Type 0
Talk = List (String × List Answer)

-- What is sent from a turn on, where `next` are the turns after one that returns.
abbrev pub and_then :
    Turn → (Loop → List (List Message) × List Message) → List (List Message) × List Message
and_then (finished s) next = let (sent, history) = next s in (s.requests ++ sent, history)
and_then (raised e s) next = (s.requests, s.messages)
and_then (waiting s) next = (s.requests, s.messages)

module _ (dumps : Fields → String) (registry : ToolRegistry) where
  -- Turns one after another, each with the user's text and the answers of the API, up to the first
  -- that does not return: the message lists sent, and the history at the end.
  unfoldable pub converse : Talk → List Message → World → List (List Message) × List Message
  unfolding run_turn add_user_text
  converse [] ms w = ([], ms)
  converse ((text, answers) ∷ rest) ms w =
      and_then (run_turn dumps registry false (add_user_text text ms) w answers)
        (λ s. converse rest s.messages s.world)
