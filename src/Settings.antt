-- ===== src/Settings.antt =====
-- app/config.py: the settings with their defaults, and their validation.
pub mod Validation
mod Tests
use fastapi_claude_voice_age.Base.{
  ℕ, leb, ltb, String, ◌<>◌, Bool, true, false, not, ◌&&◌, ◌||◌, List, [], ◌∷◌, ◌++◌, ◌==◌,
  if◌then◌else◌,
}
use fastapi_claude_voice_age.Python.{Result, ok, raise, value_error, other, ◌>>=◌}
use fastapi_claude_voice_age.Base.Int.{ℤ, pos}
use fastapi_claude_voice_age.Python.Numbers.{Float, finite, infinite, nan}

-- A `SecretStr` stands for its secret. The whole numbers have lower bounds of at least 0, so that a
-- negative one is refused by its field in any case, and is left out here.
pub record Settings : Type 0 where
  pub env : String
  pub log_level : String
  pub public_base_url : String
  pub max_concurrent_calls : ℕ
  pub anthropic_api_key : String
  pub anthropic_model : String
  pub anthropic_max_tokens : ℕ
  pub anthropic_timeout_s : Float
  pub anthropic_max_retries : ℕ
  pub deepgram_api_key : String
  pub deepgram_model : String
  pub deepgram_language : String
  pub deepgram_endpointing_ms : ℕ
  pub elevenlabs_api_key : String
  pub elevenlabs_voice_id : String
  pub elevenlabs_model : String
  pub elevenlabs_timeout_s : Float
  pub twilio_account_sid : String
  pub twilio_auth_token : String
  pub twilio_from_number : String
  pub twilio_validate_signature : Bool
  pub database_url : String
  pub redis_url : String

-- The fields' defaults.
abbrev pub default_settings : Settings
default_settings = record {
  env = "development";
  log_level = "INFO";
  public_base_url = "http://localhost:8000";
  max_concurrent_calls = 10;
  anthropic_api_key = "";
  anthropic_model = "claude-opus-5-5";
  anthropic_max_tokens = 4096;
  anthropic_timeout_s = finite false 30 (pos 0);
  anthropic_max_retries = 3;
  deepgram_api_key = "";
  deepgram_model = "nova-3";
  deepgram_language = "multi";
  deepgram_endpointing_ms = 300;
  elevenlabs_api_key = "";
  elevenlabs_voice_id = "21m00Tcm4TlvDq8ikWAM";
  elevenlabs_model = "eleven_turbo_v2_5";
  elevenlabs_timeout_s = finite false 30 (pos 0);
  twilio_account_sid = "";
  twilio_auth_token = "";
  twilio_from_number = "";
  twilio_validate_signature = true;
  database_url = "postgresql+asyncpg://voice:voice@db:5432/voice";
  redis_url = "redis://redis:6379/0";
}

between : ℕ → ℕ → ℕ → Bool
between low high n = leb low n && leb n high

-- `gt=0.0`
is_positive : Float → Bool
is_positive (finite negative mantissa exponent) = not negative && ltb 0 mantissa
is_positive (infinite negative) = not negative
is_positive nan = false

one_of : List String → String → Bool
one_of [] s = false
one_of (t ∷ ts) s = t == s || one_of ts s

-- The `Literal` types, and the bounds that `Field` states.
unfoldable pub fields_ok : Settings → Bool
unfolding between is_positive one_of
fields_ok s =
    one_of ("development" ∷ "staging" ∷ "production" ∷ []) s.env
    && one_of ("DEBUG" ∷ "INFO" ∷ "WARNING" ∷ "ERROR" ∷ []) s.log_level
    && between 1 500 s.max_concurrent_calls
    && between 64 8192 s.anthropic_max_tokens
    && is_positive s.anthropic_timeout_s
    && between 0 6 s.anthropic_max_retries
    && between 50 2000 s.deepgram_endpointing_ms
    && is_positive s.elevenlabs_timeout_s

-- The fields are checked before the validators run; a refusal is pydantic's ValidationError.
unfoldable pub validate_fields : Settings → Result Settings
validate_fields s = if fields_ok s then ok s else raise (other "ValidationError")

-- What `urlparse` tells of a URL.
pub record ParseResult : Type 0 where
  pub scheme : String
  pub netloc : String

abbrev pub is_empty : String → Bool
is_empty s = s == ""

unfoldable pub is_production : Settings → Bool
is_production s = s.env == "production"

unfoldable pub twilio_configured : Settings → Bool
twilio_configured s =
    not (is_empty s.twilio_account_sid)
    && not (is_empty s.twilio_auth_token)
    && not (is_empty s.twilio_from_number)

-- `[name] if not value`
unfoldable pub missing_one : Bool → String → List String
missing_one given name = if given then [] else name ∷ []

unfoldable pub missing_secrets : Settings → List String
unfolding missing_one twilio_configured
missing_secrets s =
    missing_one (not (is_empty s.anthropic_api_key)) "ANTHROPIC_API_KEY"
    ++ (missing_one (not (is_empty s.deepgram_api_key)) "DEEPGRAM_API_KEY"
        ++ (missing_one (not (is_empty s.elevenlabs_api_key)) "ELEVENLABS_API_KEY"
            ++ missing_one (twilio_configured s) "TWILIO_{ACCOUNT_SID,AUTH_TOKEN,FROM_NUMBER}"))

-- `", ".join(names)`
pub joined : List String → String
joined [] = ""
joined (name ∷ []) = name
joined (name ∷ more ∷ names) = name <> (", " <> joined (more ∷ names))

unfoldable pub refuse_missing : List String → Settings → Result Settings
unfolding joined
refuse_missing [] s = ok s
refuse_missing (name ∷ names) s =
    raise (value_error ("production env requires these secrets: " <> joined (name ∷ names)))

unfoldable pub require_secrets_in_production : Settings → Result Settings
unfolding is_production refuse_missing missing_secrets
require_secrets_in_production s =
    if not (is_production s) then ok s else refuse_missing (missing_secrets s) s

module _ (urlparse : String → ParseResult) (repr : String → String) where
  unfoldable pub validate_public_base_url : Settings → Result Settings
  unfolding is_production
  validate_public_base_url s =
      let parsed : ParseResult = urlparse s.public_base_url in
      if not (parsed.scheme == "http" || parsed.scheme == "https") || is_empty parsed.netloc
      then raise (
          value_error
            ("public_base_url must be an http(s) URL with a host, got " <> repr s.public_base_url))
      else if is_production s && not (parsed.scheme == "https")
      then raise (value_error "public_base_url must use https in production")
      else ok s

  -- The fields, and then the two `mode="after"` validators in their order.
  unfoldable pub validate : Settings → Result Settings
  unfolding validate_fields validate_public_base_url require_secrets_in_production
  validate s = do
    a ← validate_fields s
    b ← validate_public_base_url a
    require_secrets_in_production b
