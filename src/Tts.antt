-- ===== src/Tts.antt =====
-- app/pipeline/tts_eleven.py: `ElevenLabsTTS`, with the request for one utterance and what becomes of
-- its answer. The HTTP client is not modelled: what it gives is an argument.
mod Tests
use fastapi_claude_voice_age.Base.{
  ℕ, ◌<>◌, String, Bool, true, false, not, Option, none, some, List, [], ◌∷◌, eqb, if◌then◌else◌,
}
use fastapi_claude_voice_age.Base.Int.{pos, negsuc}
use fastapi_claude_voice_age.Python.Numbers.{finite}
use fastapi_claude_voice_age.Python.{bool, float, str, obj, Fields, field, end, Exn, runtime_error}
use fastapi_claude_voice_age.Settings.{Settings}

pub record Request : Type 0 where
  pub method : String
  pub url : String
  pub params : List (String × String)
  pub body : Fields
  pub headers : List (String × String)

-- The literals 0.45, 0.75 and 0.0 as doubles.
unfoldable pub voice_settings : Fields
voice_settings = field "stability" (float (finite false 8106479329266893 (negsuc 53))) (
    field "similarity_boost" (float (finite false 3 (negsuc 1)))
      (field "style" (float (finite false 0 (pos 0))) (field "use_speaker_boost" (bool true) end)))

unfoldable pub request : Settings → (text : String) → Request
unfolding voice_settings
request settings text = record {
  method = "POST";
  url = "/text-to-speech/" <> (settings.elevenlabs_voice_id <> "/stream");
  params = ("output_format", "pcm_16000") ∷ ("optimize_streaming_latency", "3") ∷ [];
  body = field "text" (str text) (
      field "model_id" (str settings.elevenlabs_model)
        (field "voice_settings" (obj voice_settings) end));
  headers =
      ("xi-api-key", settings.elevenlabs_api_key)
      ∷ ("accept", "audio/pcm")
      ∷ ("content-type", "application/json")
      ∷ [];
}

-- What the client gives for the request: an exception before there is an answer; or a status, the
-- chunks of `aiter_bytes` and the exception that ends the reading of the answer, if one does.
pub data Answer : Type 0 where
  unreachable : Exn → Answer
  response : (status_code : ℕ) (chunks : List (List ℕ)) (failure : Option Exn) → Answer

-- What the generator yields, and the exception that ends it.
pub record Speech : Type 0 where
  pub pcm : List (List ℕ)
  pub failure : Option Exn

-- `if chunk`
unfoldable pub nonempty : List (List ℕ) → List (List ℕ)
nonempty [] = []
nonempty ([] ∷ cs) = nonempty cs
nonempty ((b ∷ bs) ∷ cs) = (b ∷ bs) ∷ nonempty cs

-- `number_text` is `str` on a number.
module _ (number_text : ℕ → String) where
  unfoldable pub tts_error : ℕ → Exn
  tts_error status_code = runtime_error ("ElevenLabs TTS failed: " <> number_text status_code)

  -- An exception of `aread` comes in place of the TTSError.
  refused : ℕ → Option Exn → Exn
  unfolding tts_error
  refused status_code none = tts_error status_code
  refused status_code (some e) = e

  unfoldable pub synthesize_stream : Answer → Speech
  unfolding nonempty refused
  synthesize_stream (unreachable e) = record { pcm = []; failure = some e }
  synthesize_stream (response status_code chunks failure) =
      if not (eqb status_code 200)
      then record { pcm = []; failure = some (refused status_code failure) }
      else record { pcm = nonempty chunks; failure = failure }
