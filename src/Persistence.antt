-- ===== src/Persistence.antt =====
-- app/persistence and app/routers/sessions.py: the tables with their keys, `SessionRepository`, and
-- the view of a stored call. A database error is `other`, and leaves the tables as they were. `now`
-- is the time of a call's transaction.
pub mod Rows
pub mod TakenKey
pub mod Stored
pub mod Engine
mod Tests
use fastapi_claude_voice_age.Base.{
  ℕ, suc, ◌+◌, ◌≡◌, String, Bool, true, false, not, ◌&&◌, ◌||◌, leb, ltb, eqb, ◌==◌, if◌then◌else◌,
  Option, none, some, List, [], ◌∷◌, ◌++◌, map, any, length,
}
use fastapi_claude_voice_age.Base.Int.{pos}
use fastapi_claude_voice_age.Base.Text.{codes}
use fastapi_claude_voice_age.Python.{
  Json, null, int, str, arr, obj, Items, nil, cons, Fields, field, end, Result, ok, raise, other,
}

pub record CallSession : Type 0 where
  pub call_sid : String
  pub from_number : String
  pub started_at : ℕ
  pub ended_at : Option ℕ

pub record TranscriptTurn : Type 0 where
  pub id : ℕ
  pub call_sid : String
  pub role : String
  pub text : String
  pub latency_ms : Option ℕ
  pub created_at : ℕ

pub record ToolCallRecord : Type 0 where
  pub id : ℕ
  pub call_sid : String
  pub tool_name : String
  pub input_json : Fields
  pub output_json : Fields
  pub latency_ms : Option ℕ
  pub created_at : ℕ

-- The tables, in the order of insertion, and the last key that each autoincrement gave out.
pub record Database : Type 0 where
  pub sessions : List CallSession
  pub turns : List TranscriptTurn
  pub tool_calls : List ToolCallRecord
  pub last_turn : ℕ
  pub last_tool_call : ℕ

-- A value that a `String(n)` column takes.
abbrev pub fits : ℕ → String → Bool
fits n s = leb (length (codes s)) n

abbrev pub has_sid : String → CallSession → Bool
has_sid sid s = s.call_sid == sid

unfoldable pub exists : String → Database → Bool
exists sid db = any (has_sid sid) db.sessions

unfoldable pub create : String → String → ℕ → Database → Result Database
create sid from_number now db =
    if not (fits 64 sid && fits 32 from_number)
    then raise (other "DBAPIError")
    else if exists sid db
    then raise (other "IntegrityError")
    else ok (record db {
      sessions =
          db.sessions
          ++ (record {
            call_sid = sid;
            from_number = from_number;
            started_at = now;
            ended_at = none;
          }
              ∷ []);
    })

unfoldable pub end_session : String → ℕ → CallSession → CallSession
end_session sid now s = if has_sid sid s then record s { ended_at = some now } else s

unfoldable pub mark_ended : String → ℕ → Database → Database
unfolding end_session
mark_ended sid now db = record db { sessions = map (end_session sid now) db.sessions }

unfoldable pub add_turn : String → (role text : String) → Option ℕ → ℕ → Database → Result Database
add_turn sid role text latency_ms now db =
    if not (fits 16 role)
    then raise (other "DBAPIError")
    else if not (exists sid db)
    then raise (other "IntegrityError")
    else ok (record db {
      turns =
          db.turns
          ++ (record {
            id = suc db.last_turn;
            call_sid = sid;
            role = role;
            text = text;
            latency_ms = latency_ms;
            created_at = now;
          }
              ∷ []);
      last_turn = suc db.last_turn;
    })

unfoldable pub add_tool_call :
    String → String → (input_json output_json : Fields) → Option ℕ → ℕ → Database → Result Database
add_tool_call sid tool_name input_json output_json latency_ms now db =
    if not (fits 64 tool_name)
    then raise (other "DBAPIError")
    else if not (exists sid db)
    then raise (other "IntegrityError")
    else ok (record db {
      tool_calls =
          db.tool_calls
          ++ (record {
            id = suc db.last_tool_call;
            call_sid = sid;
            tool_name = tool_name;
            input_json = input_json;
            output_json = output_json;
            latency_ms = latency_ms;
            created_at = now;
          }
              ∷ []);
      last_tool_call = suc db.last_tool_call;
    })

module _ {A : Type 0} where
  unfoldable pub kept : (A → Bool) → List A → List A
  kept p [] = []
  kept p (x ∷ xs) = if p x then x ∷ kept p xs else kept p xs

  unfoldable pub placed : (A → ℕ) → (A → A → Bool) → A → List A → List A
  placed key first x [] = x ∷ []
  placed key first x (y ∷ ys) =
      if ltb (key x) (key y) || (eqb (key x) (key y) && first x y)
      then x ∷ y ∷ ys
      else y ∷ placed key first x ys

  -- ORDER BY. SQL leaves the order of equal keys open: `first` says which of two such rows comes first.
  unfoldable pub order_by : (A → ℕ) → (A → A → Bool) → List A → List A
  unfolding placed
  order_by key first [] = []
  order_by key first (x ∷ xs) = placed key first x (order_by key first xs)

-- How the database puts rows of the same time in order.
pub record Ties : Type 0 where
  pub turns : TranscriptTurn → TranscriptTurn → Bool
  pub tool_calls : ToolCallRecord → ToolCallRecord → Bool

-- The relationships of the row with this key.
unfoldable pub turns_of : Ties → String → Database → List TranscriptTurn
turns_of ties sid db =
    order_by (λ (t : TranscriptTurn). t.created_at) ties.turns
      (kept (λ (t : TranscriptTurn). t.call_sid == sid) db.turns)

unfoldable pub tool_calls_of : Ties → String → Database → List ToolCallRecord
tool_calls_of ties sid db =
    order_by (λ (t : ToolCallRecord). t.created_at) ties.tool_calls
      (kept (λ (t : ToolCallRecord). t.call_sid == sid) db.tool_calls)

unfoldable pub find : String → List CallSession → Option CallSession
find sid [] = none
find sid (s ∷ rest) = if has_sid sid s then some s else find sid rest

unfoldable pub get_with_turns :
    Ties → String → Database → Option (CallSession × List TranscriptTurn × List ToolCallRecord)
unfolding find
get_with_turns ties sid db = elim (find sid db.sessions) [
  | none ↦ none
  | some s ↦ some (s, turns_of ties sid db, tool_calls_of ties sid db)
]

number : Option ℕ → Json
number none = null
number (some n) = int (pos n)

-- `isoformat` of a time is a parameter.
module _ (isoformat : ℕ → String) where
  time : Option ℕ → Json
  time none = null
  time (some t) = str (isoformat t)

  turn_view : TranscriptTurn → Json
  unfolding number
  turn_view t = obj (
      field "role" (str t.role) (
        field "text" (str t.text) (
          field "at" (str (isoformat t.created_at))
            (field "latency_ms" (number t.latency_ms) end))))

  tool_call_view : ToolCallRecord → Json
  unfolding number
  tool_call_view t = obj (
      field "name" (str t.tool_name) (
        field "input" (obj t.input_json) (
          field "output" (obj t.output_json) (
            field "latency_ms" (number t.latency_ms)
              (field "at" (str (isoformat t.created_at)) end)))))

  turn_views : List TranscriptTurn → Items
  unfolding turn_view
  turn_views [] = nil
  turn_views (t ∷ ts) = cons (turn_view t) (turn_views ts)

  tool_call_views : List ToolCallRecord → Items
  unfolding tool_call_view
  tool_call_views [] = nil
  tool_call_views (t ∷ ts) = cons (tool_call_view t) (tool_call_views ts)

  -- `none` is the HTTPException 404.
  unfoldable pub get_call_session : Ties → String → Database → Option Fields
  unfolding turn_views tool_call_views time
  get_call_session ties sid db = elim (get_with_turns ties sid db) [
    | none ↦ none
    | some (s, turns, tool_calls) ↦ some (
        field "call_sid" (str s.call_sid) (
          field "from_number" (str s.from_number) (
            field "started_at" (str (isoformat s.started_at)) (
              field "ended_at" (time s.ended_at) (
                field "turns" (arr (turn_views turns))
                  (field "tool_calls" (arr (tool_call_views tool_calls)) end))))))
  ]
