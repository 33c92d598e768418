-- ===== src/Persistence/Stored.antt =====
-- What the tables hold of one call, as plain lists: its turns and its tool calls in the order of the
-- view.
use fastapi_claude_voice_age.Base.{
  ◌≡◌, refl, ap, sym, subst, ◌∙◌, arith, ℕ, suc, ◌≤◌, ◌<◌, String, Bool, true, false, ◌==◌, eq_iff,
  Option, none, List, [], ◌∷◌, ◌++◌, map, any, All, All-append,
}
use mathlib.Core.List.{map-append}
use fastapi_claude_voice_age.Python.{Fields, ok}
use fastapi_claude_voice_age.Persistence.{
  CallSession, TranscriptTurn, ToolCallRecord, Database, Ties, fits, has_sid, exists, create,
  end_session, mark_ended, add_turn, add_tool_call, kept, order_by, turns_of, tool_calls_of,
}
use fastapi_claude_voice_age.Persistence.Rows.{kept-taken, order_by-last, kept-All, created}

-- Role, text and latency of a turn; name, input, output and latency of a tool call.
abbrev pub Turn : Type 0
Turn = String × String × Option ℕ

abbrev pub Use : Type 0
Use = String × Fields × Fields × Option ℕ

abbrev pub turn_of : TranscriptTurn → Turn
turn_of t = (t.role, t.text, t.latency_ms)

abbrev pub use_of : ToolCallRecord → Use
use_of t = (t.tool_name, t.input_json, t.output_json, t.latency_ms)

-- The call exists with these turns and tool calls, and no row is younger than `now`.
pub record Holds (ties : Ties) (sid : String) (now : ℕ) (db : Database) (turns : List Turn)
    (uses : List Use) : Type 0 where
  pub known : exists sid db ≡ true
  pub turns_older : All (λ (t : TranscriptTurn). t.created_at ≤ now) db.turns
  pub uses_older : All (λ (t : ToolCallRecord). t.created_at ≤ now) db.tool_calls
  pub turns_are : map turn_of (turns_of ties sid db) ≡ turns
  pub uses_are : map use_of (tool_calls_of ties sid db) ≡ uses

module _ {A : Type 0} (key : A → ℕ) (now later : ℕ) where
  weaken : (xs : List A) → now ≤ later → All (λ x. key x ≤ now) xs → All (λ x. key x ≤ later) xs
  weaken [] l h = tt
  weaken (x ∷ xs) l h = (omega (arith, l, h.0), weaken xs l h.1)

-- A new last row of a call comes last among the rows that the view shows of it.
-- A clock that has gone forward shows a new time.
module _ {A : Type 0} (key : A → ℕ) (now later : ℕ) where
  outgrow : (xs : List A) → now < later → All (λ x. key x ≤ now) xs → All (λ x. key x < later) xs
  outgrow [] l h = tt
  outgrow (x ∷ xs) l h = (omega (arith, l, h.0), outgrow xs l h.1)

rows_grown :
    {A B : Type 0} (f : A → B) (key : A → ℕ) (first : A → A → Bool) (mine : A → Bool) (later : ℕ)
    (xs : List A) (y : A)
    → key y ≡ later
    → mine y ≡ true
    → All (λ x. key x < later) xs
    → map f (order_by key first (kept mine (xs ++ (y ∷ []))))
      ≡ map f (order_by key first (kept mine xs)) ++ (f y ∷ [])
rows_grown f key first mine later xs y e m h =
    let older : All (λ x. key x < key y) (kept mine xs) =
      kept-All (λ x. key x < key y) mine xs (subst (λ n. All (λ x. key x < n) xs) (sym e) h) in
    ap (λ zs. map f (order_by key first zs)) (kept-taken mine xs y m)
    ∙ (ap (map f) (order_by-last key first (kept mine xs) y older)
        ∙ map-append f (order_by key first (kept mine xs)) (y ∷ []))

pub add_turn-Holds :
    (ties : Ties) (sid role text : String) (latency_ms : Option ℕ) (now later : ℕ) (db : Database)
    (turns : List Turn) (uses : List Use)
    → Holds ties sid now db turns uses
    → now < later
    → fits 16 role ≡ true
    → (db' : Database) × (add_turn sid role text latency_ms later db ≡ ok db')
      × Holds ties sid later db' (turns ++ ((role, text, latency_ms) ∷ [])) uses
unfolding add_turn exists turns_of tool_calls_of
add_turn-Holds ties sid role text latency_ms now later db turns uses v l short =
    let new : TranscriptTurn = record {
      id = suc db.last_turn;
      call_sid = sid;
      role = role;
      text = text;
      latency_ms = latency_ms;
      created_at = later;
    } in
    let older : All (λ (t : TranscriptTurn). t.created_at < later) db.turns =
      outgrow (λ (t : TranscriptTurn). t.created_at) now later db.turns l v.turns_older in
    let grown =
      rows_grown turn_of (λ (t : TranscriptTurn). t.created_at) ties.turns
        (λ (t : TranscriptTurn). t.call_sid == sid) later db.turns new refl
        ((eq_iff sid sid).1 refl) older in
    (
      record db { turns = db.turns ++ (new ∷ []); last_turn = suc db.last_turn },
      ground (arith, v.known, short),
      record {
        known = v.known;
        turns_older =
            All-append (λ (t : TranscriptTurn). t.created_at ≤ later) db.turns (new ∷ [])
              (weaken (λ (t : TranscriptTurn). t.created_at) now later db.turns (omega (arith, l))
                v.turns_older)
              (omega arith, tt);
        uses_older =
            weaken (λ (t : ToolCallRecord). t.created_at) now later db.tool_calls (omega (arith, l))
              v.uses_older;
        turns_are = grown ∙ ap (λ x. x ++ (turn_of new ∷ [])) v.turns_are;
        uses_are = v.uses_are;
      },
    )

pub add_tool_call-Holds :
    (ties : Ties) (sid tool_name : String) (input output : Fields) (latency_ms : Option ℕ)
    (now later : ℕ) (db : Database) (turns : List Turn) (uses : List Use)
    → Holds ties sid now db turns uses
    → now < later
    → fits 64 tool_name ≡ true
    → (db' : Database) × (add_tool_call sid tool_name input output latency_ms later db ≡ ok db')
      × Holds ties sid later db' turns (uses ++ ((tool_name, input, output, latency_ms) ∷ []))
unfolding add_tool_call exists turns_of tool_calls_of
add_tool_call-Holds ties sid tool_name input output latency_ms now later db turns uses v l short =
    let new : ToolCallRecord = record {
      id = suc db.last_tool_call;
      call_sid = sid;
      tool_name = tool_name;
      input_json = input;
      output_json = output;
      latency_ms = latency_ms;
      created_at = later;
    } in
    let older : All (λ (t : ToolCallRecord). t.created_at < later) db.tool_calls =
      outgrow (λ (t : ToolCallRecord). t.created_at) now later db.tool_calls l v.uses_older in
    let grown =
      rows_grown use_of (λ (t : ToolCallRecord). t.created_at) ties.tool_calls
        (λ (t : ToolCallRecord). t.call_sid == sid) later db.tool_calls new refl
        ((eq_iff sid sid).1 refl) older in
    (
      record db {
        tool_calls = db.tool_calls ++ (new ∷ []);
        last_tool_call = suc db.last_tool_call;
      },
      ground (arith, v.known, short),
      record {
        known = v.known;
        turns_older =
            weaken (λ (t : TranscriptTurn). t.created_at) now later db.turns (omega (arith, l))
              v.turns_older;
        uses_older =
            All-append (λ (t : ToolCallRecord). t.created_at ≤ later) db.tool_calls (new ∷ [])
              (weaken (λ (t : ToolCallRecord). t.created_at) now later db.tool_calls
                (omega (arith, l)) v.uses_older)
              (omega arith, tt);
        turns_are = v.turns_are;
        uses_are = grown ∙ ap (λ x. x ++ (use_of new ∷ [])) v.uses_are;
      },
    )

any-end_session :
    (sid key : String) (now : ℕ) (ss : List CallSession)
    → any (has_sid key) (map (end_session sid now) ss) ≡ any (has_sid key) ss
unfolding end_session
any-end_session sid key now [] = refl
any-end_session sid key now (s ∷ ss) = ground (arith, any-end_session sid key now ss)

pub mark_ended-Holds :
    (ties : Ties) (sid : String) (now later : ℕ) (db : Database) (turns : List Turn)
    (uses : List Use)
    → Holds ties sid now db turns uses
    → now ≤ later
    → Holds ties sid later (mark_ended sid later db) turns uses
unfolding mark_ended exists turns_of tool_calls_of
mark_ended-Holds ties sid now later db turns uses v l = record {
  known = any-end_session sid sid later db.sessions ∙ v.known;
  turns_older = weaken (λ (t : TranscriptTurn). t.created_at) now later db.turns l v.turns_older;
  uses_older = weaken (λ (t : ToolCallRecord). t.created_at) now later db.tool_calls l v.uses_older;
  turns_are = v.turns_are;
  uses_are = v.uses_are;
}

-- A call that is new to the tables starts with no rows of its own.
pub create-Holds :
    (ties : Ties) (sid from_number : String) (now : ℕ) (db : Database)
    → exists sid db ≡ false
    → fits 64 sid ≡ true
    → fits 32 from_number ≡ true
    → All (λ (t : TranscriptTurn). t.created_at ≤ now) db.turns
    → All (λ (t : ToolCallRecord). t.created_at ≤ now) db.tool_calls
    → turns_of ties sid db ≡ []
    → tool_calls_of ties sid db ≡ []
    → (db' : Database) × (create sid from_number now db ≡ ok db') × Holds ties sid now db' [] []
unfolding create turns_of tool_calls_of
create-Holds ties sid from_number now db fresh room short turns_older uses_older no_turns no_uses =
    (
      record db {
        sessions =
            db.sessions
            ++ (record {
              call_sid = sid;
              from_number = from_number;
              started_at = now;
              ended_at = none;
            }
                ∷ []);
      },
      ground (arith, fresh, room, short),
      record {
        known = created sid from_number now db;
        turns_older = turns_older;
        uses_older = uses_older;
        turns_are = ap (map turn_of) no_turns;
        uses_are = ap (map use_of) no_uses;
      },
    )
