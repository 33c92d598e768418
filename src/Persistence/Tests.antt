-- ===== src/Persistence/Tests.antt =====
-- Concrete tables and the view of a call.
use fastapi_claude_voice_age.Base.{◌≡◌, refl, true, none, some, [], ◌∷◌}
use fastapi_claude_voice_age.Python.{str, arr, nil, field, end, ok}
use fastapi_claude_voice_age.Persistence.{
  Ties, Database, create, mark_ended, exists, turns_of, tool_calls_of, get_with_turns,
  get_call_session, kept, order_by,
}

abbrev empty : Database
empty = record { sessions = []; turns = []; tool_calls = []; last_turn = 0; last_tool_call = 0 }

abbrev browser : Database
browser = record empty {
  sessions =
      record { call_sid = "webrtc"; from_number = "webrtc"; started_at = 5; ended_at = none } ∷ [];
}

stored : create "webrtc" "webrtc" 5 empty ≡ ok browser
unfolding create exists
stored = refl

abbrev inserted : Ties
inserted = record { turns = λ t u. true; tool_calls = λ t u. true }

view :
    get_call_session (λ t. "at") inserted "webrtc" (mark_ended "webrtc" 8 browser)
    ≡ some (
        field "call_sid" (str "webrtc") (
          field "from_number" (str "webrtc") (
            field "started_at" (str "at") (
              field "ended_at"
                (str "at")
                (field "turns" (arr nil) (field "tool_calls" (arr nil) end))))))
unfolding get_call_session get_with_turns mark_ended turns_of tool_calls_of kept order_by
view = refl
