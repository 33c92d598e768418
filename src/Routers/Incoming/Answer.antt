-- ===== src/Routers/Incoming/Answer.antt =====
-- What an incoming call is answered with.
use fastapi_claude_voice_age.Base.{◌≡◌, arith, String, Bool, true, not, leb, List, if◌then◌else◌}
use fastapi_claude_voice_age.Python.{ok}
use fastapi_claude_voice_age.Gate.{CallGate}
use fastapi_claude_voice_age.Settings.{Settings, ParseResult, is_empty, is_production, validate}
use fastapi_claude_voice_age.Security.{Request, header, is_signed}
use fastapi_claude_voice_age.Security.Signature.{validate_twilio_signature-production}
use fastapi_claude_voice_age.Routers.Incoming.{
  xml, http_error, busy_twiml, connect_twiml, form_get, public_ws_url, after_signature, answered,
  incoming_call,
}

module _
    (validator : (auth_token url : String)
      → List (String × String)
      → (signature : String) → Bool) where
  -- In production, with settings that passed their validation and signatures switched on, the
  -- webhook answers a request with a 403 unless its signature is accepted, then with the TwiML that
  -- says busy if no permit is free by the counter, and else with the TwiML that connects the stream.
  pub incoming_call-production :
      (urlparse : String → ParseResult) (repr : String → String) (request : Request)
      (settings given : Settings) (gate : CallGate)
      → validate urlparse repr given ≡ ok settings
      → is_production settings ≡ true
      → settings.twilio_validate_signature ≡ true
      → incoming_call validator request settings gate ≡ (
          if is_empty (header request)
          then http_error 403 "missing signature"
          else if not (is_signed validator request settings)
          then http_error 403 "invalid signature"
          else if leb gate.max gate.active
          then xml busy_twiml
          else xml (
              connect_twiml
                (public_ws_url settings)
                (form_get "CallSid" "unknown" request.form)
                (form_get "From" "unknown" request.form)))
  unfolding incoming_call after_signature answered
  incoming_call-production urlparse repr request settings given gate valid prod on = ground (
    arith,
    validate_twilio_signature-production validator urlparse repr request settings given valid prod
        on,
  )
