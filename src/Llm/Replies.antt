-- ===== src/Llm/Replies.antt =====
-- app/pipeline/llm_claude.py: what the API answers, what a turn gives and the messages between them,
-- with what `_stream_once` and `run_turn` read from a reply.
use fastapi_claude_voice_age.Base.{
  ℕ, Bool, true, false, String, ◌<>◌, Option, none, some, List, [], ◌∷◌, ◌++◌, map, ◌==◌,
}
use fastapi_claude_voice_age.Python.{Fields, Exn}

pub record ToolUse : Type 0 where
  pub id : String
  pub name : String
  pub input : Fields

-- A content block as `model_dump` gives it; `other` is one of any further type (thinking and so on).
pub data Block : Type 0 where
  text : String → Block
  tool_use : ToolUse → Block
  other : String → Fields → Block

-- The two cache counts may be missing.
pub record Usage : Type 0 where
  pub input_tokens : ℕ
  pub output_tokens : ℕ
  pub cache_read_input_tokens : Option ℕ
  pub cache_creation_input_tokens : Option ℕ

pub data StreamEvent : Type 0 where
  text_delta : String → StreamEvent
  other_event : StreamEvent

-- One response of the API: its events, its final message, and the microseconds that it took. A
-- stream may also break off with an exception, after some events.
pub record Reply : Type 0 where
  pub events : List StreamEvent
  pub content : List Block
  pub usage : Usage
  pub stop_reason : Option String
  pub took : ℕ

pub data Answer : Type 0 where
  replied : Reply → Answer
  failed : List StreamEvent → Exn → Answer

pub record StreamedChunk : Type 0 where
  pub text_delta : String
  pub is_final : Bool

pub record ToolCall : Type 0 where
  pub name : String
  pub input : Fields
  pub output : Fields
  pub latency_ms : ℕ

-- A `tool_result` block, with the JSON text of the output.
pub record ToolResult : Type 0 where
  pub tool_use_id : String
  pub content : String

pub data Message : Type 0 where
  user_text : String → Message
  assistant : List Block → Message
  tool_results : List ToolResult → Message

pub record TurnResult : Type 0 where
  pub text : String
  pub tool_calls : List ToolCall
  pub input_tokens : ℕ
  pub output_tokens : ℕ
  pub cache_read_tokens : ℕ
  pub cache_creation_tokens : ℕ
  pub latency_ms : ℕ

-- `_iter_text_deltas`
unfoldable pub iter_text_deltas : List StreamEvent → List String
iter_text_deltas [] = []
iter_text_deltas (text_delta s ∷ es) = s ∷ iter_text_deltas es
iter_text_deltas (other_event ∷ es) = iter_text_deltas es

-- `"".join`
unfoldable pub join : List String → String
join [] = ""
join (s ∷ ss) = s <> join ss

-- The text that `_stream_once` returns.
unfoldable pub text_of : Reply → String
unfolding iter_text_deltas join
text_of r = join (iter_text_deltas r.events)

-- What `_stream_once` hands to `on_text_chunk`, if there is one: the deltas of a stream, and the
-- final chunk.
unfoldable pub delta_chunks : Bool → List StreamEvent → List StreamedChunk
unfolding iter_text_deltas
delta_chunks false es = []
delta_chunks true es = map (λ s. record { text_delta = s; is_final = false }) (iter_text_deltas es)

unfoldable pub final_chunk : Bool → List StreamedChunk
final_chunk false = []
final_chunk true = record { text_delta = ""; is_final = true } ∷ []

unfoldable pub chunks_of : Bool → Reply → List StreamedChunk
unfolding delta_chunks final_chunk
chunks_of listening r = delta_chunks listening r.events ++ final_chunk listening

abbrev pub or_zero : Option ℕ → ℕ
or_zero none = 0
or_zero (some n) = n

unfoldable pub tool_uses : List Block → List ToolUse
tool_uses [] = []
tool_uses (tool_use u ∷ bs) = u ∷ tool_uses bs
tool_uses (_ ∷ bs) = tool_uses bs

unfoldable pub is_refusal : Reply → Bool
is_refusal r = elim r.stop_reason [ some reason ↦ reason == "refusal" | none ↦ false ]

abbrev pub refusal_fallback_text : String
refusal_fallback_text = "Sorry, I can't help with that. Is there something else I can do for you?"
