-- ===== src/Routers/Connection/Tests.antt =====
-- A caller who starts, speaks and stops; and one whose second start replaces the first.
use fastapi_claude_voice_age.Base.{
  ◌≡◌, refl, true, false, String, Bool, Option, none, some, List, [], ◌∷◌, All, map, ℕ, length,
  ◌++◌,
}
use fastapi_claude_voice_age.Python.{Json, str, obj, field, end, Result, ok}
use fastapi_claude_voice_age.Orchestrator.Call
use fastapi_claude_voice_age.Orchestrator.Call.Invariant.Runs.{IsAtRest}
use fastapi_claude_voice_age.Orchestrator.Playback.{
  cancel, resume, start_playback, twilio, receiving, returned, item, finished,
}
use fastapi_claude_voice_age.Orchestrator.Live.{Live, as_call}
use fastapi_claude_voice_age.Orchestrator.Live
use fastapi_claude_voice_age.Stt
use fastapi_claude_voice_age.Routers.Socket.{json, Move, media_move}
use fastapi_claude_voice_age.Routers.Connection.{
  Event, receives, started, current_goes, former_goes, init, run, step,
}
use fastapi_claude_voice_age.Routers.Connection.Seats.{is_ending, live_of}
use fastapi_claude_voice_age.Routers.Connection.Ended.{
  CurrentIsStopped, IsStopped, run-IsStopped, run_ended,
}

abbrev shown : Json → String
shown v = "a value"

abbrev moving : Bool → Json → Result Move
moving = media_move shown

abbrev start_frame : String → Event
start_frame sid = receives (
    json (
      obj
        (field "event" (str "start") (field "start" (obj (field "streamSid" (str sid) end)) end))))

abbrev stop_frame : Event
stop_frame = receives (json (obj (field "event" (str "stop") end)))

abbrev started_well : Event
started_well = started (ok tt) (ok tt)

-- The greeting plays until the caller hangs up.
abbrev one_call : List Event
one_call =
    start_frame "MZ1"
    ∷ started_well
    ∷ current_goes (Live.playback_wakes returned)
    ∷ current_goes (Live.playback_wakes (item (1 ∷ 2 ∷ [])))
    ∷ stop_frame
    ∷ []

abbrev after_it : List Event
after_it = current_goes (Live.playback_wakes finished) ∷ current_goes Live.enters ∷ []

-- The second start leaves the first call's playback running.
abbrev two_calls : List Event
two_calls =
    start_frame "MZ1"
    ∷ started_well
    ∷ start_frame "MZ2"
    ∷ started_well
    ∷ former_goes 0 (Live.playback_wakes returned)
    ∷ former_goes 0 (Live.playback_wakes (item (1 ∷ 2 ∷ [])))
    ∷ former_goes 0 (Live.playback_wakes finished)
    ∷ stop_frame
    ∷ []

run-IsStopped_example :
    CurrentIsStopped
      (is_ending (run moving init two_calls).loop)
      (run moving init two_calls).current
    × All (IsStopped false) (run moving init two_calls).former
run-IsStopped_example = run-IsStopped moving two_calls

-- What is left of the one call when its caller hangs up.
abbrev hung_up : Live
hung_up = record {
  call = record {
    transport = twilio;
    stream_sid = "MZ1";
    queue = [];
    consumer = Call.listening;
    consumer_cancelled = true;
    current = some (record {
      text = Call.greeting;
      persist = true;
      pc = receiving (1 ∷ 2 ∷ []);
      cancelling = true;
    });
    former = [];
    user_texts = [];
    rows = Call.session "MZ1" "unknown" ∷ [];
    frames = [];
    stopped = true;
    closed = false;
  };
  stt = record {
    connected = true;
    reader = Stt.fresh;
    cancelling = false;
    queue = [];
    closed = false;
    closer = Stt.idle;
  };
  entered = false;
}

loop_ended : is_ending (run moving init one_call).loop ≡ true
unfolding run step media_move Stt.connect Call.start
loop_ended = refl

call_left : live_of (run moving init one_call).current ≡ some hung_up
unfolding run step media_move Stt.connect Call.start Live.step Call.step Stt.init cancel resume
    start_playback
call_left = refl

run_ended_example :
    (l' : Live) × (live_of (run moving (run moving init one_call) after_it).current ≡ some l')
    × IsAtRest (as_call hung_up) (as_call l')
run_ended_example = run_ended moving one_call after_it hung_up loop_ended call_left

-- How many frames a call has sent.
abbrev sent_of : Option Live → ℕ
sent_of none = 0
sent_of (some l) = length l.call.frames

-- The replaced call's greeting goes out beside that of the call that replaced it.
still_heard :
    map
      (λ s. sent_of s.live)
      (run moving init (two_calls ++ (former_goes 0 (Live.playback_wakes returned) ∷ []))).former
    ≡ 2 ∷ []
unfolding run step media_move Stt.connect Call.start Live.step Call.step resume start_playback
still_heard = refl
