-- ===== src/Audio/Tests.antt =====
-- Samples of both companding laws, and a frame that goes in and out.
use fastapi_claude_voice_age.Base.{◌≡◌, refl, ℕ, ◌-◌, ◌*◌, true, false, List, [], ◌∷◌, map, length}
use fastapi_claude_voice_age.Python.{ok, ◌>>=◌}
use fastapi_claude_voice_age.Python.Base64.{b64encode, b64decode}
use fastapi_claude_voice_age.Stt.{Stream, reading, idle}
use fastapi_claude_voice_age.Audio.{ulaw, ulaw_b64_to_pcm16, pcm16_to_ulaw_b64, on_audio_frame}
use fastapi_claude_voice_age.Audio.RoundTrip.{canonical, pcm16_to_ulaw_b64-ulaw_b64_to_pcm16}
use fastapi_claude_voice_age.Audio.Sizes.{length-on_audio_frame}
use fastapi_claude_voice_age.Audio.Audioop.{linear_of, ulaw_of, segment, ratecv, reduced}

loudest : map linear_of (0 ∷ 128 ∷ 127 ∷ 255 ∷ 254 ∷ []) ≡ 33412 ∷ 32124 ∷ 0 ∷ 0 ∷ 8 ∷ []
unfolding linear_of
loudest = refl

companded :
    map ulaw_of (33412 ∷ 32124 ∷ 0 ∷ 8 ∷ 32767 ∷ 32768 ∷ 65535 ∷ [])
    ≡ 0 ∷ 128 ∷ 255 ∷ 254 ∷ 128 ∷ 0 ∷ 126 ∷ []
unfolding ulaw_of segment
companded = refl

halves : reduced 8000 16000 ≡ (1, 2)
unfolding reduced
halves = refl

upsampled : ratecv 8000 16000 (100 ∷ 0 ∷ 200 ∷ 0 ∷ []) ≡ ok (100 ∷ 0 ∷ 150 ∷ 0 ∷ 200 ∷ 0 ∷ [])
unfolding ratecv
upsampled = refl

abbrev three : List ℕ
three = 127 ∷ 0 ∷ 128 ∷ []

pcm16_to_ulaw_b64-ulaw_b64_to_pcm16_example :
    (ulaw_b64_to_pcm16 "fwCA" >>= pcm16_to_ulaw_b64)
    ≡ (b64decode "fwCA" >>= λ us. ok (b64encode (map canonical us)))
pcm16_to_ulaw_b64-ulaw_b64_to_pcm16_example = pcm16_to_ulaw_b64-ulaw_b64_to_pcm16 "fwCA"

read_three : b64decode "fwCA" ≡ ok three
unfolding b64decode
read_three = refl

abbrev listening : Stream
listening = record {
  connected = true;
  reader = reading;
  cancelling = false;
  queue = [];
  closed = false;
  closer = idle;
}

length-on_audio_frame_example :
    (pcm : List ℕ) × (on_audio_frame (λ b. ok tt) "fwCA" ulaw listening ≡ ok pcm)
    × (length pcm ≡ 4 * 3 - 2)
length-on_audio_frame_example =
    length-on_audio_frame (λ b. ok tt) listening "fwCA" three (λ b. refl) refl read_three
