-- ===== src/Orchestrator/Live/Tests.antt =====
-- A call with its recognizer at concrete events.
use fastapi_claude_voice_age.Base.{
  ◌≡◌, refl, suc, ◌≤◌, String, Bool, true, false, none, List, [], ◌∷◌, length,
}
use fastapi_claude_voice_age.Python.{
  Json, bool, str, arr, obj, nil, cons, field, end, Result, ok, raise, get_or, get,
}
use fastapi_claude_voice_age.Python.Objects.{strip}
use fastapi_claude_voice_age.Stt
use fastapi_claude_voice_age.Stt.{Raw, bytes, text, parse}
use fastapi_claude_voice_age.Stt.Transcripts.{brings}
use fastapi_claude_voice_age.Orchestrator.Playback.{twilio}
use fastapi_claude_voice_age.Orchestrator.Call
use fastapi_claude_voice_age.Orchestrator.Call.{ready}
use fastapi_claude_voice_age.Orchestrator.Live.{
  Live, Event, hears, enters, polls, consumer_wakes, as_call, step, run, start,
}
use fastapi_claude_voice_age.Orchestrator.Live.Refinement.{run-refines}
use fastapi_claude_voice_age.Orchestrator.Live.Deaf.{run_deaf}

abbrev message : Json → Bool → Json
message alternatives is_final = obj (
    field "type" (str "Results") (
      field "is_final" (bool is_final)
        (field "channel" (obj (field "alternatives" alternatives end)) end)))

abbrev transcript : String → Json
transcript t = arr (cons (obj (field "transcript" (str t) end)) nil)

abbrev started : Result Live
started = start twilio "MZ1" "CA1" "+1" (ok tt) (ok tt)

abbrev fallen_back : Live → Result Live → Live
fallen_back l (ok m) = m
fallen_back l (raise e) = l

abbrev blank : Live
blank = record {
  call = record {
    transport = twilio;
    stream_sid = "";
    queue = [];
    consumer = Call.listening;
    consumer_cancelled = false;
    current = none;
    former = [];
    user_texts = [];
    rows = [];
    frames = [];
    stopped = false;
    closed = false;
  };
  stt = Stt.init;
  entered = false;
}

abbrev fresh : Live
fresh = fallen_back blank started

fresh_call_started : started ≡ ok fresh
unfolding start Call.start Stt.connect
fresh_call_started = refl

-- The reader and the consumer start, and a text is heard, taken, stored and given to the model.
abbrev opening : List Event
opening =
    hears bytes
    ∷ enters
    ∷ hears (text (message (transcript "a slot") true))
    ∷ polls true
    ∷ consumer_wakes ready
    ∷ consumer_wakes ready
    ∷ []

opening_texts : (run fresh opening).call.user_texts ≡ "a slot" ∷ []
unfolding run step Stt.reader_step start Call.start Call.speak Call.step Call.consume Stt.connect
    Stt.init parse get_or get strip as_call
opening_texts = refl

run-refines_example :
    (c : Call.Call) × (fs : List Call.Event) × (Call.start twilio "MZ1" "CA1" "+1" (ok tt) (ok tt)
      ≡ ok c)
    × (as_call (run fresh opening) ≡ Call.run c fs)
run-refines_example =
    run-refines twilio "MZ1" "CA1" "+1" (ok tt) (ok tt) fresh opening fresh_call_started

-- The recognizer is heard, and a message without alternatives comes.
abbrev hearing : Live
hearing = record blank { stt = record Stt.init { connected = true; reader = Stt.reading } }

ends_reader : brings (text (message (arr nil) true)) ≡ none
unfolding brings parse get_or get
ends_reader = refl

run_deaf_example :
    length (run (step hearing (hears (text (message (arr nil) true)))) opening).call.user_texts
    ≤ suc 0
unfolding Stt.init
run_deaf_example = run_deaf hearing (text (message (arr nil) true)) opening refl refl ends_reader
