-- ===== src/Routers/Socket.antt =====
-- The sockets: `_run_media_stream` of app/routers/twilio.py and `_run_signaling` of
-- app/routers/webrtc.py. What `receive_text` and `json.loads` give is the input, and what a call of
-- the orchestrator raises is told by `outcome`, from the calls before it. `text_of` is `str` on a
-- value that is no text.
pub mod Sessions
pub mod Malformed
use fastapi_claude_voice_age.Base.{
  ℕ, zero, suc, String, ◌<>◌, Bool, true, false, not, ◌&&◌, eqb, Option, none, some, List, [], ◌∷◌,
  ◌++◌, ◌==◌, if◌then◌else◌,
}
use fastapi_claude_voice_age.Base.Int.{ℤ, pos, negsuc}
use fastapi_claude_voice_age.Python.{
  Json, null, bool, int, float, str, arr, obj, Items, nil, cons, Fields, field, end, Exn,
  attribute_error, Result, ok, raise, ◌>>=◌, get, get_or,
}
use fastapi_claude_voice_age.Python.Objects.{truthy, dict_of}
use fastapi_claude_voice_age.Orchestrator.Playback.{Transport, twilio, webrtc}

-- The arguments of a `CallOrchestrator`.
pub record Opened : Type 0 where
  pub stream_sid : String
  pub call_sid : String
  pub from_number : String
  pub transport : Transport

-- The calls of an orchestrator: `start`, `on_audio_frame` and `stop`.
pub data Action : Type 0 where
  start : Opened → Action
  on_audio_frame : Opened → String → Action
  stop : Opened → Action

-- A text frame with its value, one that is no JSON, and the exception WebSocketDisconnect.
pub data Received : Type 0 where
  json : Json → Received
  bad_json : Received
  disconnect : Received

-- What a frame asks for.
pub data Move : Type 0 where
  begin : Opened → Move
  audio : String → Move
  leave : Move
  ignore : Move

-- `left` is the `break`; `waiting` is a loop whose input has run out.
pub data Ending : Type 0 where
  left disconnected waiting : Ending
  failed : Exn → Ending

-- `d.get(key) or {}`, on which `.get` is called
dict_under : String → Fields → Result Fields
unfolding dict_of truthy get_or
dict_under key d = let v : Json = get_or key d null in if truthy v then dict_of v else ok end

-- `isinstance(payload, str)`
audio_move : Json → Move
audio_move (str payload) = audio payload
audio_move _ = ignore

-- `value == text`
is_text : String → Json → Bool
is_text s (str t) = s == t
is_text s _ = false

module _ (text_of : Json → String) where
  -- `str(value)`
  to_text : Json → String
  to_text (str s) = s
  to_text v = text_of v

  media_start : Fields → Result Move
  unfolding dict_under get_or truthy to_text
  media_start msg = do
    details ← dict_under "start" msg
    params ← dict_under "customParameters" details
    let stream_sid : String = to_text (get_or "streamSid" details (str "")) in
        let call : Json = get_or "callSid" params null in
        ok (
          begin (record {
            stream_sid = stream_sid;
            call_sid = if truthy call then to_text call else stream_sid;
            from_number = to_text (get_or "from" params (str "unknown"));
            transport = twilio;
          }))

  -- One turn of the loop of `_run_media_stream`, up to its call of the orchestrator.
  unfoldable pub media_move : Bool → Json → Result Move
  unfolding dict_of media_start dict_under audio_move is_text get_or
  media_move has_orchestrator v = do
    msg ← dict_of v
    let event : Json = get_or "event" msg null in
        if is_text "start" event
        then media_start msg
        else if is_text "media" event && has_orchestrator
        then (dict_under "media" msg >>= λ media. ok (audio_move (get_or "payload" media null)))
        else if is_text "stop" event
        then ok leave
        else ok ignore

  signaling_start : Fields → Move
  unfolding get_or to_text
  signaling_start msg =
      let session_id : String = to_text (get_or "session_id" msg (str "webrtc")) in
      begin (record {
        stream_sid = session_id;
        call_sid = session_id;
        from_number = "webrtc";
        transport = webrtc;
      })

  -- One turn of the loop of `_run_signaling`.
  unfoldable pub signaling_move : Bool → Json → Result Move
  unfolding dict_of signaling_start audio_move is_text get_or
  signaling_move has_orchestrator v = do
    msg ← dict_of v
    let kind : Json = get_or "type" msg null in
        if is_text "start" kind
        then ok (signaling_start msg)
        else if is_text "audio" kind && has_orchestrator
        then ok (audio_move (get_or "payload" msg null))
        else if is_text "stop" kind
        then ok leave
        else ok ignore

-- The frames of a socket, for either kind of `move`.
module _ (move : Bool → Json → Result Move) (outcome : List Action → Action → Option Exn) where
  has : Option Opened → Bool
  has none = false
  has (some o) = true

  -- The `finally` clause: an exception of `stop` takes the place of another.
  close : Option Opened → List Action → Ending → List Action × Ending
  close none log e = (log, e)
  close (some o) log e =
      (log ++ (stop o ∷ []), elim (outcome log (stop o)) [ none ↦ e | some x ↦ failed x ])

  -- After a call that raised nothing the loop goes on with `rest`.
  called : Option Exn → Opened → List Action → (List Action × Ending) → List Action × Ending
  unfolding close
  called none o log rest = rest
  called (some x) o log rest = close (some o) log (failed x)

  -- What a frame makes the loop do, where `rest` is the loop on the frames after it.
  act :
      Result Move
      → (Option Opened → List Action → List Action × Ending)
      → Option Opened
      → List Action
      → List Action × Ending
  unfolding called close
  act (raise x) rest current log = close current log (failed x)
  act (ok ignore) rest current log = rest current log
  act (ok leave) rest current log = close current log left
  act (ok (begin o)) rest current log =
      called (outcome log (start o)) o (log ++ (start o ∷ []))
        (rest (some o) (log ++ (start o ∷ [])))
  act (ok (audio payload)) rest none log = rest none log
  act (ok (audio payload)) rest (some o) log =
      called (outcome log (on_audio_frame o payload)) o (log ++ (on_audio_frame o payload ∷ []))
        (rest (some o) (log ++ (on_audio_frame o payload ∷ [])))

  -- The loop, with the orchestrator of the moment and the calls made so far, oldest first.
  unfoldable pub run : List Received → Option Opened → List Action → List Action × Ending
  unfolding has act
  run [] current log = (log, waiting)
  run (disconnect ∷ frames) current log = close current log disconnected
  run (bad_json ∷ frames) current log = run frames current log
  run (json v ∷ frames) current log = act (move (has current) v) (run frames) current log

-- `media_stream` inside its slot, and `signaling`: a disconnect is no error.
unfoldable pub served : List Action × Ending → List Action × Result (Unit {0})
served (log, failed x) = (log, raise x)
served (log, e) = (log, ok tt)
