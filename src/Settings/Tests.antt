-- ===== src/Settings/Tests.antt =====
-- Settings that pass and settings that do not.
use fastapi_claude_voice_age.Base.{◌≡◌, refl, ◌↔◌, String, true}
use fastapi_claude_voice_age.Python.{ok, raise, value_error}
use fastapi_claude_voice_age.Settings.{
  Settings, default_settings, fields_ok, ParseResult, validate, validate_public_base_url,
  require_secrets_in_production, is_production,
}
use fastapi_claude_voice_age.Settings.Validation.{is_valid, validate-is_valid}

abbrev parsed_as_https : String → ParseResult
parsed_as_https url = record { scheme = "https"; netloc = "voice.example" }

abbrev unchanged : String → String
unchanged s = s

abbrev production : Settings
production = record default_settings {
  env = "production";
  public_base_url = "https://voice.example";
  anthropic_api_key = "a";
  deepgram_api_key = "";
  elevenlabs_api_key = "e";
  twilio_account_sid = "AC1";
  twilio_auth_token = "";
  twilio_from_number = "+15550001";
  twilio_validate_signature = true;
}

two_missing :
    validate parsed_as_https unchanged production
    ≡ raise (
        value_error
          "production env requires these secrets: DEEPGRAM_API_KEY, TWILIO_{ACCOUNT_SID,AUTH_TOKEN,FROM_NUMBER}")
unfolding validate fields_ok validate_public_base_url require_secrets_in_production is_production
two_missing = refl

validate-is_valid_example :
    (validate parsed_as_https unchanged production ≡ ok production)
    ↔ ((production ≡ production) × (is_valid parsed_as_https production ≡ true))
validate-is_valid_example = validate-is_valid parsed_as_https unchanged production production
