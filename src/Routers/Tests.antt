-- ===== src/Routers/Tests.antt =====
-- The routers on concrete frames and requests.
use fastapi_claude_voice_age.Base.{
  ◌≡◌, refl, String, Bool, true, not, leb, Option, some, none, List, [], ◌∷◌, if◌then◌else◌, ◌==◌,
}
use fastapi_claude_voice_age.Python.{
  Json, str, arr, nil, obj, field, end, Exn, attribute_error, ok, raise, get_or,
}
use fastapi_claude_voice_age.Orchestrator.Playback.{twilio}
use fastapi_claude_voice_age.Settings.{
  Settings, default_settings, fields_ok, ParseResult, validate, is_production, is_empty,
}
use fastapi_claude_voice_age.Security.{Request, header, is_signed}
use fastapi_claude_voice_age.Gate.{CallGate}
use fastapi_claude_voice_age.Routers.Incoming.{
  xml, http_error, busy_twiml, connect_twiml, form_get, public_ws_url, incoming_call,
}
use fastapi_claude_voice_age.Routers.Incoming.Answer.{incoming_call-production}
use fastapi_claude_voice_age.Python.Objects.{dict_of}
use fastapi_claude_voice_age.Routers.Socket.{
  Opened, Action, start, stop, on_audio_frame, Received, json, bad_json, disconnect, left,
  media_move, run,
}
use fastapi_claude_voice_age.Routers.Socket.Sessions.{IsSession, is_over, run-IsSession}

abbrev shown_as : Json → String
shown_as v = "[]"

abbrev fine : List Action → Action → Option Exn
fine log a = none

abbrev call : Opened
call = record { stream_sid = "MZ1"; call_sid = "CA1"; from_number = "+1"; transport = twilio }

abbrev start_frame : Json
start_frame = obj (
    field "event" (str "start") (
      field "start"
        (obj (
          field "streamSid" (str "MZ1") (
            field "customParameters"
              (obj (field "callSid" (str "CA1") (field "from" (str "+1") end))) end)))
        end))

abbrev media_frame : Json
media_frame =
    obj (field "event" (str "media") (field "media" (obj (field "payload" (str "AAAA") end)) end))

abbrev stop_frame : Json
stop_frame = obj (field "event" (str "stop") end)

abbrev frames : List Received
frames = json media_frame ∷ bad_json ∷ json start_frame ∷ json media_frame ∷ json stop_frame ∷ []

run_frames :
    run (media_move shown_as) fine frames none []
    ≡ (start call ∷ on_audio_frame call "AAAA" ∷ stop call ∷ [], left)
unfolding run media_move get_or dict_of
run_frames = refl

run-IsSession_example :
    IsSession
      (is_over (run (media_move shown_as) fine frames none []).1)
      none
      (run (media_move shown_as) fine frames none []).0
run-IsSession_example = run-IsSession (media_move shown_as) fine frames

abbrev restarted : List Received
restarted = json start_frame ∷ json start_frame ∷ disconnect ∷ []

no_object : dict_of (arr nil) ≡ raise (attribute_error "'list' object has no attribute 'get'")
unfolding dict_of
no_object = refl

abbrev parsed_as_https : String → ParseResult
parsed_as_https url = record { scheme = "https"; netloc = "voice.example" }

abbrev unchanged : String → String
unchanged s = s

abbrev production : Settings
production = record default_settings {
  env = "production";
  public_base_url = "https://voice.example/";
  anthropic_api_key = "a";
  deepgram_api_key = "d";
  elevenlabs_api_key = "e";
  twilio_account_sid = "AC1";
  twilio_auth_token = "t";
  twilio_from_number = "+15550001";
  twilio_validate_signature = true;
}

abbrev posted : Request
posted = record {
  path = "/voice/incoming";
  query = "a=1";
  signature = some "t";
  form = ("CallSid", "CA1") ∷ [];
}

-- A validator whose signature of everything is the token.
abbrev by_token : (auth_token url : String) → List (String × String) → (signature : String) → Bool
by_token auth_token url params signature = auth_token == signature

production_ok : validate parsed_as_https unchanged production ≡ ok production
unfolding validate fields_ok
production_ok = refl

in_production : is_production production ≡ true
unfolding is_production
in_production = refl

abbrev idle_gate : CallGate
idle_gate = record { sem = record { value = 2; waiters = [] }; max = 2; active = 0 }

incoming_call-production_example : incoming_call by_token posted production idle_gate ≡ (
    if is_empty (header posted)
    then http_error 403 "missing signature"
    else if not (is_signed by_token posted production)
    then http_error 403 "invalid signature"
    else if leb 2 0
    then xml busy_twiml
    else xml (
        connect_twiml
          (public_ws_url production)
          (form_get "CallSid" "unknown" posted.form)
          (form_get "From" "unknown" posted.form)))
incoming_call-production_example =
    incoming_call-production by_token parsed_as_https unchanged posted production production
      idle_gate production_ok in_production refl

ws_url : public_ws_url production ≡ "wss://voice.example//voice/stream"
unfolding public_ws_url
ws_url = refl
