-- ===== src/Audio.antt =====
-- app/pipeline/audio.py: the codec between a caller's μ-law and the PCM16 of the services, and the
-- audio frames of app/pipeline/orchestrator.py that go through it.
pub mod Audioop
pub mod RoundTrip
pub mod Sizes
pub mod Outgoing
mod Tests
use fastapi_claude_voice_age.Base.{ℕ, String, List}
use fastapi_claude_voice_age.Python.{Result, ok, ◌>>=◌, ◌>>◌}
use fastapi_claude_voice_age.Stt.{Stream, send_pcm}
use fastapi_claude_voice_age.Python.Base64.{b64encode, b64decode}
use Audioop.{ulaw2lin, lin2ulaw, ratecv}

-- `encoding` of `on_audio_frame`
pub data Encoding : Type 0 where
  ulaw pcm16 : Encoding

abbrev ulaw_rate : ℕ
ulaw_rate = 8000

abbrev pcm_rate : ℕ
pcm_rate = 16000

unfoldable pub ulaw_b64_to_pcm16 : String → Result (List ℕ)
unfolding ulaw2lin ratecv b64decode
ulaw_b64_to_pcm16 payload_b64 = do
  payload ← b64decode payload_b64
  ratecv ulaw_rate pcm_rate (ulaw2lin payload)

unfoldable pub pcm16_to_ulaw_b64 : List ℕ → Result String
unfolding lin2ulaw ratecv b64encode
pcm16_to_ulaw_b64 pcm16k = do
  pcm8k ← ratecv pcm_rate ulaw_rate pcm16k
  payload ← lin2ulaw pcm8k
  ok (b64encode payload)

unfoldable pub pcm16_b64_passthrough : String → Result (List ℕ)
unfolding b64decode
pcm16_b64_passthrough payload_b64 = b64decode payload_b64

unfoldable pub decoded : String → Encoding → Result (List ℕ)
unfolding ulaw_b64_to_pcm16 pcm16_b64_passthrough
decoded payload_b64 ulaw = ulaw_b64_to_pcm16 payload_b64
decoded payload_b64 pcm16 = pcm16_b64_passthrough payload_b64

-- `send` is what the recognizer's socket does with the bytes; the result tells what it got.
unfoldable pub on_audio_frame :
    (List ℕ → Result (Unit {0})) → String → Encoding → Stream → Result (List ℕ)
unfolding decoded send_pcm
on_audio_frame send payload_b64 encoding stt = do
  pcm ← decoded payload_b64 encoding
  send_pcm (send pcm) stt
  ok pcm
