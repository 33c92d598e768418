-- ===== src/Audio/Sizes.antt =====
-- How many bytes of PCM16 a frame of the caller becomes, and what of them reaches the recognizer.
use fastapi_claude_voice_age.Base.{
  ◌≡◌, refl, ℕ, ◌-◌, ◌*◌, true, String, List, [], ◌∷◌, map, length, arith,
}
use fastapi_claude_voice_age.Python.{Result, ok}
use fastapi_claude_voice_age.Python.Base64.{b64decode}
use fastapi_claude_voice_age.Stt.{Stream, send_pcm}
use fastapi_claude_voice_age.Audio.{ulaw, ulaw_b64_to_pcm16, decoded, on_audio_frame}
use fastapi_claude_voice_age.Audio.Audioop.{
  pack, linear_of, written, converted, gcd, reduced, ulaw2lin,
}
use fastapi_claude_voice_age.Audio.RoundTrip.{ratecv-pack}

length-pack : (ws : List ℕ) → length (pack ws) ≡ 2 * length ws
unfolding pack
length-pack [] = refl
length-pack (w ∷ ws) = omega (arith, length-pack ws)

pub length-map : (f : ℕ → ℕ) (xs : List ℕ) → length (map f xs) ≡ length xs
length-map f [] = refl
length-map f (x ∷ xs) = omega (arith, length-map f xs)

-- Two samples for each one after the first.
length-stepped : (prev : ℕ) (ws : List ℕ) → length (converted 1 2 1 prev ws) ≡ 2 * length ws
unfolding converted written
length-stepped prev [] = refl
length-stepped prev (w ∷ ws) = omega (arith, length-stepped w ws)

length-converted : (ws : List ℕ) → length (converted 1 2 2 0 ws) ≡ 2 * length ws - 1
unfolding converted written
length-converted [] = refl
length-converted (w ∷ ws) = omega (arith, length-stepped w ws)

ulaw_b64_to_pcm16-sized :
    (payload : String) (us : List ℕ)
    → b64decode payload ≡ ok us
    → (pcm : List ℕ) × (ulaw_b64_to_pcm16 payload ≡ ok pcm) × (length pcm ≡ 4 * length us - 2)
unfolding ulaw_b64_to_pcm16 ulaw2lin reduced gcd
ulaw_b64_to_pcm16-sized payload us h =
    let ws = map linear_of us in
    (
      pack (converted 1 2 2 0 ws),
      rw (h, ratecv-pack 8000 16000 ws) refl,
      omega
          (arith, length-pack (converted 1 2 2 0 ws), length-converted ws, length-map linear_of us),
    )

-- If the base64 text of a μ-law frame gives bytes, the recognizer is connected and its socket takes
-- what it is sent, then `on_audio_frame` sends four bytes of PCM16 for each byte of the frame, less
-- two: since each frame is converted by itself, it lacks one sample of 16 kHz.
pub length-on_audio_frame :
    (send : List ℕ → Result (Unit {0})) (stt : Stream) (payload : String) (us : List ℕ)
    → ((pcm : List ℕ) → send pcm ≡ ok tt)
    → stt.connected ≡ true
    → b64decode payload ≡ ok us
    → (pcm : List ℕ) × (on_audio_frame send payload ulaw stt ≡ ok pcm)
      × (length pcm ≡ 4 * length us - 2)
unfolding on_audio_frame decoded send_pcm
length-on_audio_frame send stt payload us taken connected h =
    let (pcm, e, l) = ulaw_b64_to_pcm16-sized payload us h in
    (pcm, rw (e, connected, taken pcm) refl, l)
