-- ===== src/Routers/Incoming.antt =====
-- `incoming_call` of app/routers/twilio.py: the TwiML that answers Twilio's webhook.
pub mod Answer
use Prim.Native.Char.{Char, code}
use Prim.Native.String.{String, [], ◌∷◌}
use fastapi_claude_voice_age.Base.{
  ℕ, zero, suc, ◌-◌, Bool, true, false, ◌&&◌, eqb, leb, ◌==◌, ◌<>◌, if◌then◌else◌, List, [], ◌∷◌,
}
use fastapi_claude_voice_age.Base.Text.{codes}
use fastapi_claude_voice_age.Base.{length}
use fastapi_claude_voice_age.Gate.{CallGate}
use fastapi_claude_voice_age.Settings.{Settings}
use fastapi_claude_voice_age.Security.{Request, Verdict, passed, refused, validate_twilio_signature}

has_prefix : String → String → Bool
has_prefix [] s = true
has_prefix (p ∷ ps) [] = false
has_prefix (p ∷ ps) (c ∷ s) = eqb (code p) (code c) && has_prefix ps s

-- `s.replace(old, new)` for an `old` that is not empty; `skip` characters belong to a match.
unfoldable pub replaced : ℕ → String → String → String → String
unfolding has_prefix
replaced skip old new [] = []
replaced zero old new (c ∷ s) =
    let matched : String = new <> replaced (length (codes old) - 1) old new s in
    let other : String = c ∷ replaced zero old new s in
    if has_prefix old (c ∷ s) then matched else other
replaced (suc skip) old new (c ∷ s) = replaced skip old new s

unfoldable pub public_ws_url : Settings → String
unfolding replaced
public_ws_url settings =
    replaced 0 "http://" "ws://" (replaced 0 "https://" "wss://" settings.public_base_url)
    <> "/voice/stream"

unfoldable pub busy_twiml : String
busy_twiml =
    "<?xml version=\"1.0\" encoding=\"UTF-8\"?>"
    <> ("<Response>"
        <> ("<Say>All our agents are busy right now. Please try again in a few minutes.</Say>"
            <> ("<Hangup/>" <> "</Response>")))

-- `form.get(key, default)`: of a key given twice the last value.
unfoldable pub form_get : String → String → List (String × String) → String
form_get key default [] = default
form_get key default ((k, v) ∷ pairs) = form_get key (if k == key then v else default) pairs

unfoldable pub connect_twiml : (ws_url call_sid from_number : String) → String
connect_twiml ws_url call_sid from_number =
    "<?xml version=\"1.0\" encoding=\"UTF-8\"?>\n<Response>\n  <Connect>\n    <Stream url=\""
    <> (ws_url
        <> ("\">\n      <Parameter name=\"callSid\" value=\""
            <> (call_sid
                <> ("\" />\n      <Parameter name=\"from\" value=\""
                    <> (from_number <> "\" />\n    </Stream>\n  </Connect>\n</Response>")))))

-- `xml` is a Response with this content, `http_error` the HTTPException that FastAPI answers with.
pub data Reply : Type 0 where
  xml : String → Reply
  http_error : ℕ → String → Reply

unfoldable pub answered : CallGate → Settings → Request → Reply
unfolding public_ws_url form_get
answered gate settings request =
    if leb gate.max gate.active
    then xml busy_twiml
    else xml (
        connect_twiml (public_ws_url settings) (form_get "CallSid" "unknown" request.form)
          (form_get "From" "unknown" request.form))

after_signature : Verdict → Reply → Reply
after_signature passed reply = reply
after_signature (refused status detail) reply = http_error status detail

module _
    (validator : (auth_token url : String)
      → List (String × String)
      → (signature : String) → Bool) where
  unfoldable pub incoming_call : Request → Settings → CallGate → Reply
  unfolding after_signature answered
  incoming_call request settings gate =
      after_signature (validate_twilio_signature validator request settings)
        (answered gate settings request)
