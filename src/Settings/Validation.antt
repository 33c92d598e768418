-- ===== src/Settings/Validation.antt =====
-- Which settings the two validators let through.
use fastapi_claude_voice_age.Base.{
  ℕ, List, [], ◌∷◌, subst, inl, inr, Bool-cases, eq_iff, ◌≡◌, ◌≤◌, &&-both, leb, leb→le, refl, ◌↔◌,
  ap, sym, arith, String, Bool, true, false, not, ◌&&◌, ◌||◌, ◌++◌, ◌==◌,
}
use fastapi_claude_voice_age.Python.{ok}
use fastapi_claude_voice_age.Settings.{
  Settings, ParseResult, is_empty, is_production, twilio_configured, missing_one, missing_secrets,
  refuse_missing, require_secrets_in_production, validate_fields, fields_ok, between, one_of,
  is_positive, validate_public_base_url, validate,
}

-- The secrets that production needs.
pub has_secrets : Settings → Bool
has_secrets s =
    not (is_empty s.anthropic_api_key)
    && not (is_empty s.deepgram_api_key)
    && not (is_empty s.elevenlabs_api_key)
    && not (is_empty s.twilio_account_sid)
    && not (is_empty s.twilio_auth_token)
    && not (is_empty s.twilio_from_number)

-- The rules of the fields and of both validators together.
pub is_valid : (String → ParseResult) → Settings → Bool
unfolding has_secrets
is_valid urlparse s =
    let parsed : ParseResult = urlparse s.public_base_url in
    fields_ok s
    && (parsed.scheme == "https" || (parsed.scheme == "http" && not (is_production s)))
    && not (is_empty parsed.netloc)
    && (not (is_production s) || has_secrets s)

refuse_missing-ok :
    (a b c d : Bool) (w x y z : String) (s t : Settings)
    → (refuse_missing
          (missing_one a w ++ (missing_one b x ++ (missing_one c y ++ missing_one d z)))
          s
        ≡ ok t)
      ↔ ((t ≡ s) × ((a && b && c && d) ≡ true))
unfolding refuse_missing missing_one
refuse_missing-ok true true true true w x y z s t =
    (λ h. (ground (arith, h), refl), λ h. ap ok (sym h.0))
refuse_missing-ok _ _ _ _ w x y z s t = (λ h. ground (arith, h), λ h. ground (arith, h))

-- The validators let exactly the valid settings through, and do not change them.
pub validate-is_valid :
    (urlparse : String → ParseResult) (repr : String → String) (s t : Settings)
    → (validate urlparse repr s ≡ ok t) ↔ ((t ≡ s) × (is_valid urlparse s ≡ true))
unfolding validate validate_fields require_secrets_in_production validate_public_base_url
    missing_secrets twilio_configured is_valid has_secrets
validate-is_valid urlparse repr s t = ground (
  arith,
  refuse_missing-ok (not (is_empty s.anthropic_api_key)) (not (is_empty s.deepgram_api_key))
      (not (is_empty s.elevenlabs_api_key)) (twilio_configured s) "ANTHROPIC_API_KEY"
      "DEEPGRAM_API_KEY" "ELEVENLABS_API_KEY" "TWILIO_{ACCOUNT_SID,AUTH_TOKEN,FROM_NUMBER}" s t,
)

pub valid_token :
    (urlparse : String → ParseResult) (s : Settings)
    → is_valid urlparse s ≡ true
    → is_production s ≡ true
    → is_empty s.twilio_auth_token ≡ false
unfolding is_valid has_secrets
valid_token urlparse s v p = ground (arith, v, p)

-- Of tests that all hold, the first and the third.
first_of : (a b c d : Bool) → (a && b && c && d) ≡ true → a ≡ true
first_of a b c d h = ground (arith, h)

third_of : (a b c d e f g h : Bool) → (a && b && c && d && e && f && g && h) ≡ true → c ≡ true
third_of a b c d e f g h t = ground (arith, t)

between-bounds : (low high n : ℕ) → between low high n ≡ true → (low ≤ n) × (n ≤ high)
unfolding between
between-bounds low high n h =
    let (above, below) = &&-both (leb low n) (leb n high) h in
    (leb→le low n above, leb→le n high below)

fields_ok-cap :
    (s : Settings)
    → fields_ok s ≡ true
    → (1 ≤ s.max_concurrent_calls) × (s.max_concurrent_calls ≤ 500)
unfolding fields_ok
fields_ok-cap s h =
    let known = one_of ("development" ∷ "staging" ∷ "production" ∷ []) s.env in
    let logged = one_of ("DEBUG" ∷ "INFO" ∷ "WARNING" ∷ "ERROR" ∷ []) s.log_level in
    between-bounds 1 500 s.max_concurrent_calls (
      third_of known logged (between 1 500 s.max_concurrent_calls)
        (between 64 8192 s.anthropic_max_tokens) (is_positive s.anthropic_timeout_s)
        (between 0 6 s.anthropic_max_retries) (between 50 2000 s.deepgram_endpointing_ms)
        (is_positive s.elevenlabs_timeout_s) h)

pub valid_cap :
    (urlparse : String → ParseResult) (s : Settings)
    → is_valid urlparse s ≡ true
    → (1 ≤ s.max_concurrent_calls) × (s.max_concurrent_calls ≤ 500)
unfolding is_valid
valid_cap urlparse s v =
    let parsed : ParseResult = urlparse s.public_base_url in
    fields_ok-cap s (
      first_of (fields_ok s)
        (parsed.scheme == "https" || (parsed.scheme == "http" && not (is_production s)))
        (not (is_empty parsed.netloc)) (not (is_production s) || has_secrets s) v)

second_of : (a b c d e f g h : Bool) → (a && b && c && d && e && f && g && h) ≡ true → b ≡ true
second_of a b c d e f g h t = ground (arith, t)

-- A test that the first name passes, and each of the others.
one_of-either :
    (test : String → Bool) (t : String) (ts : List String) (s : String)
    → test t ≡ true
    → (one_of ts s ≡ true → test s ≡ true)
    → one_of (t ∷ ts) s ≡ true
    → test s ≡ true
unfolding one_of
one_of-either test t ts s h others k = elim (Bool-cases (t == s)) [
  | inl e ↦ subst (λ x. test x ≡ true) ((eq_iff t s).0 e) h
  | inr e ↦ others (ground (arith, e, k))
]

-- What holds of the four levels holds of the level of valid settings.
pub valid_log_level :
    (urlparse : String → ParseResult) (s : Settings) (test : String → Bool)
    → is_valid urlparse s ≡ true
    → (test "DEBUG" ≡ true) × (test "INFO" ≡ true) × (test "WARNING" ≡ true) × (test "ERROR" ≡ true)
    → test s.log_level ≡ true
unfolding is_valid fields_ok one_of
valid_log_level urlparse s test v (debug, info, warning, error) =
    let parsed : ParseResult = urlparse s.public_base_url in
    let fields =
      first_of (fields_ok s)
        (parsed.scheme == "https" || (parsed.scheme == "http" && not (is_production s)))
        (not (is_empty parsed.netloc)) (not (is_production s) || has_secrets s) v in
    let known =
      second_of (one_of ("development" ∷ "staging" ∷ "production" ∷ []) s.env)
        (one_of ("DEBUG" ∷ "INFO" ∷ "WARNING" ∷ "ERROR" ∷ []) s.log_level)
        (between 1 500 s.max_concurrent_calls) (between 64 8192 s.anthropic_max_tokens)
        (is_positive s.anthropic_timeout_s) (between 0 6 s.anthropic_max_retries)
        (between 50 2000 s.deepgram_endpointing_ms) (is_positive s.elevenlabs_timeout_s) fields in
    one_of-either test "DEBUG" ("INFO" ∷ "WARNING" ∷ "ERROR" ∷ []) s.log_level debug
      (one_of-either test "INFO" ("WARNING" ∷ "ERROR" ∷ []) s.log_level info (
        one_of-either test "WARNING" ("ERROR" ∷ []) s.log_level warning
          (one_of-either test "ERROR" [] s.log_level error (λ e. absurd (ground (arith, e))))))
      known
