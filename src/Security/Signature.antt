-- ===== src/Security/Signature.antt =====
-- Which requests pass.
use fastapi_claude_voice_age.Base.{
  ◌≡◌, ◌∙◌, ap, ◌⊎◌, ◌↔◌, arith, String, Bool, true, false, List, if◌then◌else◌, eq_iff,
}
use fastapi_claude_voice_age.Python.{ok}
use fastapi_claude_voice_age.Settings.{Settings, ParseResult, is_empty, is_production, validate}
use fastapi_claude_voice_age.Settings.Validation.{is_valid, validate-is_valid, valid_token}
use fastapi_claude_voice_age.Security.{
  Request, passed, refused, header, is_signed, validate_twilio_signature,
}

module _
    (validator : (auth_token url : String)
      → List (String × String)
      → (signature : String) → Bool) where
  -- A request passes exactly if validation is switched off, or no token is set outside production, or
  -- a token is set and the request has a signature header that the validator accepts.
  pub validate_twilio_signature-passed :
      (request : Request) (settings : Settings)
      → (validate_twilio_signature validator request settings ≡ passed) ↔ (
          (settings.twilio_validate_signature ≡ false)
          ⊎ (((settings.twilio_auth_token ≡ "") × (is_production settings ≡ false))
              ⊎ ((is_empty settings.twilio_auth_token ≡ false)
                  × (is_empty (header request) ≡ false)
                  × (is_signed validator request settings ≡ true))))
  unfolding validate_twilio_signature
  validate_twilio_signature-passed request settings =
      ground (arith, eq_iff settings.twilio_auth_token "")

  -- If the settings passed their validation and are those of production, with validation on, then a
  -- request passes exactly if it has a signature header that the validator accepts, and is refused
  -- with 403 otherwise: the refusal with 500 does not happen.
  pub validate_twilio_signature-production :
      (urlparse : String → ParseResult) (repr : String → String) (request : Request)
      (settings given : Settings)
      → validate urlparse repr given ≡ ok settings
      → is_production settings ≡ true
      → settings.twilio_validate_signature ≡ true
      → validate_twilio_signature validator request settings ≡ (
          if is_empty (header request)
          then refused 403 "missing signature"
          else if is_signed validator request settings
          then passed
          else refused 403 "invalid signature")
  unfolding validate_twilio_signature
  validate_twilio_signature-production urlparse repr request settings given valid prod on =
      let (same, is_ok) = (validate-is_valid urlparse repr given settings).0 valid in
      let token : is_empty settings.twilio_auth_token ≡ false =
        valid_token urlparse settings (ap (is_valid urlparse) same ∙ is_ok) prod in
      ground (arith, token, prod, on)
