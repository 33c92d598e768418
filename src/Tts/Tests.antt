-- ===== src/Tts/Tests.antt =====
-- An answer of the speech synthesis.
use fastapi_claude_voice_age.Base.{◌≡◌, refl, ℕ, String, none, some, [], ◌∷◌}
use fastapi_claude_voice_age.Python.{runtime_error}
use fastapi_claude_voice_age.Tts.{response, synthesize_stream}

abbrev as_text : ℕ → String
as_text n = "403"

forbidden :
    synthesize_stream as_text (response 403 ((1 ∷ []) ∷ []) none)
    ≡ record { pcm = []; failure = some (runtime_error "ElevenLabs TTS failed: 403") }
unfolding synthesize_stream
forbidden = refl

empty_chunks :
    synthesize_stream as_text (response 200 ((1 ∷ []) ∷ [] ∷ (2 ∷ []) ∷ []) none)
    ≡ record { pcm = (1 ∷ []) ∷ (2 ∷ []) ∷ []; failure = none }
unfolding synthesize_stream
empty_chunks = refl
