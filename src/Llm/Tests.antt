-- ===== src/Llm/Tests.antt =====
-- A turn with one tool call, and the theorems at concrete conversations.
use fastapi_claude_voice_age.Base.{
  ◌≡◌, ◌≢◌, refl, ◌+◌, ℕ, inr, true, false, String, none, some, List, [], ◌∷◌, ◌++◌, map, arith,
  length, if◌then◌else◌, eq_iff,
}
use fastapi_claude_voice_age.Python.{Fields, end, field, str, other as other_error, ok}
use fastapi_claude_voice_age.Tools.World.{World, Handler}
use fastapi_claude_voice_age.Tools.Registry.{ToolRegistry, execute, tool_specs}
use fastapi_claude_voice_age.Llm.{
  ToolUse, text, tool_use, Usage, text_delta, Reply, replied, failed, Message, user_text, Turn,
  finished, raised, Loop, add_user_text, run_turn, tool_uses, is_refusal,
}
use fastapi_claude_voice_age.Llm.Conversation.{
  replay, loop_of, IsSound, run_turn-IsAnswered, run_turn_refused,
}
use fastapi_claude_voice_age.Settings.{default_settings}
use fastapi_claude_voice_age.Llm.Requests.{new_agent, stream_request, Talk, converse}
use fastapi_claude_voice_age.Llm.Requests.Growth.{IsChain, converse-IsChain}
use fastapi_claude_voice_age.Llm.Sums.{called, asked_for, uses_of}
use fastapi_claude_voice_age.Llm.Turns.{IsTurnOf, run_turn-IsTurnOf, run_turn_failed}

abbrev echo : Handler
echo args w = (ok args, w)

abbrev spec : Fields
spec = field "name" (str "echo") end

abbrev tools : ToolRegistry
tools = ("echo", record { spec = spec; handler = echo }) ∷ []

abbrev dumps : Fields → String
dumps d = "{}"

abbrev world : World
world = record { now = 0; hex = λ n. "00"; drawn = 0; sent = [] }

abbrev usage : Usage
usage = record {
  input_tokens = 10;
  output_tokens = 2;
  cache_read_input_tokens = none;
  cache_creation_input_tokens = some 4;
}

abbrev call : ToolUse
call = record { id = "t1"; name = "echo"; input = end }

abbrev asking : Reply
asking = record {
  events = text_delta "One " ∷ [];
  content = text "One " ∷ tool_use call ∷ [];
  usage = usage;
  stop_reason = some "tool_use";
  took = 5000;
}

abbrev final : Reply
final = record {
  events = text_delta "moment." ∷ [];
  content = text "moment." ∷ [];
  usage = usage;
  stop_reason = some "end_turn";
  took = 3000;
}

abbrev refusing : Reply
refusing = record asking { stop_reason = some "refusal" }

abbrev history : List Message
history = user_text "hello" ∷ []

abbrev result_of : Turn → String × ℕ × ℕ
result_of t =
    let r = (loop_of t).result in (r.text, r.input_tokens + r.cache_creation_tokens, r.latency_ms)

turn_result :
    result_of (run_turn dumps tools false history world (replied asking ∷ replied final ∷ []))
    ≡ ("One moment.", 28, 8)
unfolding run_turn execute
turn_result = refl

answered : replay history ≡ some []
unfolding replay
answered = refl

clean : (if is_refusal asking then tool_uses asking.content else []) ≡ []
unfolding is_refusal
clean = refl

asking-uses : tool_uses asking.content ≡ call ∷ []
unfolding tool_uses
asking-uses = refl

asking_plain : is_refusal asking ≡ false
unfolding is_refusal
asking_plain = refl

refusing_refuses : is_refusal refusing ≡ true
unfolding is_refusal
refusing_refuses = refl

final-uses : tool_uses final.content ≡ []
unfolding tool_uses
final-uses = refl

asks : ¬ (tool_uses asking.content ≡ [])
unfolding tool_uses
asks h = cc

run_turn-IsAnswered_example :
    IsSound (loop_of (run_turn dumps tools false history world (replied asking ∷ [])))
run_turn-IsAnswered_example =
    run_turn-IsAnswered dumps tools false history world (replied asking ∷ []) answered (clean, tt)

run_turn_refused_example :
    let t = run_turn dumps tools false history world (replied refusing ∷ []) in
    (s : Loop) × (t ≡ finished s)
    × (replay s.messages ≡ some ("t1" ∷ []))
    × (replay (add_user_text "hello?" s.messages) ≡ none)
run_turn_refused_example =
    run_turn_refused dumps tools false history world refusing [] call [] "hello?" answered
      refusing_refuses asking-uses

run_turn-IsTurnOf_example :
    (s : Loop) × (run_turn dumps tools true history world (replied asking ∷ replied final ∷ [])
      ≡ finished s)
    × IsTurnOf (asking ∷ []) final s
run_turn-IsTurnOf_example =
    run_turn-IsTurnOf dumps tools true history world (asking ∷ []) final []
      ((asking_plain, asks), tt) (inr final-uses)

run_turn_failed_example :
    (s : Loop) × (run_turn dumps tools false history world
        (replied asking ∷ failed [] (other_error "overloaded") ∷ [])
      ≡ raised (other_error "overloaded") s)
    × (called s.result.tool_calls ≡ asked_for (uses_of (asking ∷ [])))
    × (length s.requests ≡ 2)
run_turn_failed_example =
    run_turn_failed dumps tools false history world (asking ∷ []) [] (other_error "overloaded") []
      ((asking_plain, asks), tt)

specs : tool_specs tools ≡ [] ++ (spec ∷ [])
unfolding tool_specs
specs = refl

other_reason : ◌≢◌ {A = String} "end_turn" "refusal"
other_reason = ground (arith, eq_iff "end_turn" "refusal")

abbrev two_turns : Talk
two_turns = ("a slot", replied asking ∷ replied final ∷ []) ∷ ("thanks", replied final ∷ []) ∷ []

three_requests : length (converse dumps tools two_turns [] world).0 ≡ 3
unfolding converse run_turn execute tool_uses is_refusal
three_requests = refl

converse-IsChain_example : IsChain (
    map
      (stream_request (new_agent "Be brief." default_settings tools))
      (converse dumps tools two_turns [] world).0)
converse-IsChain_example = converse-IsChain dumps tools "Be brief." default_settings two_turns world
