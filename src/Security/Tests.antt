-- ===== src/Security/Tests.antt =====
-- Signatures of concrete requests.
use fastapi_claude_voice_age.Base.{
  ◌≡◌, refl, String, Bool, true, some, List, [], ◌∷◌, ◌==◌, if◌then◌else◌,
}
use fastapi_claude_voice_age.Python.{ok}
use fastapi_claude_voice_age.Settings.{
  Settings, default_settings, fields_ok, ParseResult, validate, is_production, is_empty,
}
use fastapi_claude_voice_age.Security.{
  Request, passed, refused, header, is_signed, validate_twilio_signature, public_url,
}
use fastapi_claude_voice_age.Security.Signature.{validate_twilio_signature-production}

abbrev parsed_as_https : String → ParseResult
parsed_as_https url = record { scheme = "https"; netloc = "voice.example" }

abbrev unchanged : String → String
unchanged s = s

abbrev production : Settings
production = record default_settings {
  env = "production";
  public_base_url = "https://voice.example/";
  anthropic_api_key = "a";
  deepgram_api_key = "d";
  elevenlabs_api_key = "e";
  twilio_account_sid = "AC1";
  twilio_auth_token = "t";
  twilio_from_number = "+15550001";
  twilio_validate_signature = true;
}

abbrev posted : Request
posted = record {
  path = "/voice/incoming";
  query = "a=1";
  signature = some "t";
  form = ("CallSid", "CA1") ∷ [];
}

-- A validator whose signature of everything is the token.
abbrev by_token : (auth_token url : String) → List (String × String) → (signature : String) → Bool
by_token auth_token url params signature = auth_token == signature

url : public_url posted production ≡ "https://voice.example/voice/incoming?a=1"
unfolding public_url
url = refl

production_ok : validate parsed_as_https unchanged production ≡ ok production
unfolding validate fields_ok
production_ok = refl

in_production : is_production production ≡ true
unfolding is_production
in_production = refl

validate_twilio_signature-production_example :
    validate_twilio_signature by_token posted production ≡ (
      if is_empty (header posted)
      then refused 403 "missing signature"
      else if is_signed by_token posted production
      then passed
      else refused 403 "invalid signature")
validate_twilio_signature-production_example =
    validate_twilio_signature-production by_token parsed_as_https unchanged posted production
      production production_ok in_production refl
