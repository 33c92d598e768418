-- ===== src/Orchestrator/Tests.antt =====
-- A short call, and the theorems at concrete calls.
use fastapi_claude_voice_age.Base.{
  String, ◌≡◌, refl, true, false, Option, none, some, List, [], ◌∷◌, ◌++◌, arith, if◌then◌else◌,
}
use fastapi_claude_voice_age.Python.{other, ok, is_blank}
use fastapi_claude_voice_age.Llm.{TurnResult}
use fastapi_claude_voice_age.Orchestrator.Playback.{
  twilio, Wake, item, finished, returned, Playback, is_done, start_playback, play,
}
use fastapi_claude_voice_age.Orchestrator.Playback.Frames.{
  bytes_of, buffered_of, is_failed, taken, bytes_of-play,
}
use fastapi_claude_voice_age.Orchestrator.Playback.Shape.{Stage, streaming, watch, watch-play}
use fastapi_claude_voice_age.Orchestrator.Call.{
  session, turn, listening, thinking, gone, ready, answered, failed, Call, Event, transcribed,
  consumer_wakes, playback_wakes, former_wakes, stop_called, stop_goes_on, greeting, reply_rows,
  speak, start, step, run,
}
use fastapi_claude_voice_age.Orchestrator.Call.Turn.{turn_events, storing_events, run-turn_events}
use fastapi_claude_voice_age.Orchestrator.Call.BargeIn.{playing, barge_in, late_partial}
use fastapi_claude_voice_age.Orchestrator.Call.Failure.{run_model_failed}
use fastapi_claude_voice_age.Orchestrator.Call.Log.{Ungiven, user_turns, user_turns-run}
use fastapi_claude_voice_age.Orchestrator.Call.Invariant.Runs.{IsAtRest, run-former_wakes, run-stop}

-- The state that `start` leaves.
abbrev call : Call
call = record {
  transport = twilio;
  stream_sid = "MZ1";
  queue = [];
  consumer = listening;
  consumer_cancelled = false;
  current = some (start_playback greeting true);
  former = [];
  user_texts = [];
  rows = session "CA1" "+1" ∷ [];
  frames = [];
  stopped = false;
  closed = false;
}

started : start twilio "MZ1" "CA1" "+1" (ok tt) (ok tt) ≡ ok call
unfolding start
started = refl

abbrev sure : TurnResult
sure = record {
  text = "Sure.";
  tool_calls = [];
  input_tokens = 1;
  output_tokens = 1;
  cache_read_tokens = 0;
  cache_creation_tokens = 0;
  latency_ms = 7;
}

abbrev asked : Call
asked = record call { queue = ("a slot", true) ∷ [] }

abbrev busy : Call
busy = record call { consumer = thinking; queue = ("and then", false) ∷ [] }

sure_loud : is_blank "Sure." ≡ false
unfolding is_blank
sure_loud = refl

not_yet_done : is_done (start_playback greeting true) ≡ false
unfolding is_done start_playback
not_yet_done = refl

abbrev short_speech : List Wake
short_speech = returned ∷ item (1 ∷ 2 ∷ []) ∷ finished ∷ returned ∷ returned ∷ []

intact : is_failed (play twilio "MZ1" (start_playback "hi" false) short_speech).task.pc ≡ false
unfolding play start_playback
intact = refl

plain : (start_playback "hi" false).cancelling ≡ false
unfolding start_playback
plain = refl

bytes_of-play_example :
    let r = play twilio "MZ1" (start_playback "hi" false) short_speech in
    bytes_of r.sent ++ buffered_of r.task.pc
    ≡ buffered_of (start_playback "hi" false).pc
      ++ taken twilio "MZ1" (start_playback "hi" false) short_speech
bytes_of-play_example =
    bytes_of-play twilio "MZ1" (start_playback "hi" false) short_speech plain intact

watch-play_example :
    (st : Stage) × (watch twilio "MZ1" streaming
        (play twilio "MZ1" (start_playback "hi" false) short_speech).sent
      ≡ some st)
watch-play_example = watch-play twilio "MZ1" "hi" false short_speech

run-turn_events_example :
    let c' = record asked {
      queue = [];
      rows =
          session "CA1" "+1" ∷ turn "user" "a slot" none ∷ turn "assistant" "Sure." (some 9) ∷ [];
      user_texts = "a slot" ∷ [];
    } in
    run asked (turn_events sure 9) ≡ (if is_blank "Sure." then c' else speak "Sure." false c')
run-turn_events_example = run-turn_events sure 9 "a slot" [] asked refl refl refl

barge_in_example :
    let c = record call { queue = ("wait", false) ∷ [] } in
    (p' : Option Playback) × (run c (consumer_wakes ready ∷ playing short_speech)
      ≡ record c { queue = []; current = p' })
barge_in_example =
    barge_in (record call { queue = ("wait", false) ∷ [] }) "wait" [] (start_playback greeting true)
      short_speech refl refl refl refl not_yet_done (omega arith)

late_partial_example :
    let c' = run busy (
      consumer_wakes (answered sure 9)
      ∷ (storing_events (reply_rows sure 9) ++ (consumer_wakes ready ∷ playing short_speech))) in
    (c'.frames ≡ []) × (c'.rows ≡ session "CA1" "+1" ∷ turn "assistant" "Sure." (some 9) ∷ [])
late_partial_example =
    late_partial busy sure 9 "and then" [] short_speech refl refl refl (omega arith) sure_loud

run_model_failed_example :
    let c1 = step busy (consumer_wakes (failed (other "overloaded"))) in
    let es = transcribed "hello?" true ∷ consumer_wakes ready ∷ [] in
    (c1.stopped ≡ false)
    × ((run c1 es).consumer ≡ gone (some (other "overloaded")))
    × ((run c1 es).user_texts ≡ [])
run_model_failed_example =
    run_model_failed busy (other "overloaded")
      (transcribed "hello?" true ∷ consumer_wakes ready ∷ []) refl refl

abbrev talk : List Event
talk = transcribed "a slot" true ∷ turn_events sure 9

user_turns-run_example :
    (more : List String) × (user_turns (run call talk).rows ≡ (run call talk).user_texts ++ more)
    × Ungiven (run call talk).consumer more
user_turns-run_example = user_turns-run twilio "MZ1" "CA1" "+1" (ok tt) (ok tt) talk started

run-former_wakes_example :
    (fs : List Playback) × (step (run call talk) (former_wakes 0 (item (1 ∷ [])))
      ≡ record (run call talk) { former = fs })
run-former_wakes_example =
    run-former_wakes twilio "MZ1" "CA1" "+1" (ok tt) (ok tt) started talk 0 (item (1 ∷ []))

run-stop_example : IsAtRest (run call talk) (
    run
      (step (run call talk) stop_called)
      (playback_wakes returned ∷ consumer_wakes ready ∷ stop_goes_on ∷ []))
run-stop_example =
    run-stop twilio "MZ1" "CA1" "+1" (ok tt) (ok tt) started talk
      (playback_wakes returned ∷ consumer_wakes ready ∷ stop_goes_on ∷ [])
