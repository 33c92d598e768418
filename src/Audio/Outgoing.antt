-- ===== src/Audio/Outgoing.antt =====
-- What becomes of PCM16 on its way to Twilio: how long the payload is, and which bytes are refused.
use fastapi_claude_voice_age.Base.{
  ◌≡◌, refl, ℕ, ◌+◌, ◌*◌, ◌/◌, ◌%◌, ◌<◌, String, List, [], ◌∷◌, map, length, arith, All,
}
use fastapi_claude_voice_age.Python.{Exn, other, ok, raise}
use fastapi_claude_voice_age.Python.Base64.{b64encode, b64decode}
use fastapi_claude_voice_age.Python.Base64.RoundTrip.{b64decode-b64encode}
use fastapi_claude_voice_age.Audio.{pcm16_to_ulaw_b64}
use fastapi_claude_voice_age.Audio.Audioop.{
  unpack, segment, ulaw_byte, ulaw_of, written, converted, gcd, reduced, ratecv, lin2ulaw,
}
use fastapi_claude_voice_age.Audio.RoundTrip.{unpack-pack}
use fastapi_claude_voice_age.Audio.Sizes.{length-map}

abbrev pub odd_fragment : Exn
odd_fragment = other "not a whole number of frames"

pub unpack-even :
    (xs : List ℕ)
    → length xs % 2 ≡ 0
    → (ws : List ℕ) × (unpack xs ≡ ok ws) × (length xs ≡ 2 * length ws)
unfolding unpack
unpack-even [] h = ([], refl, refl)
unpack-even (b ∷ []) h = absurd (omega (arith, h))
unpack-even (a ∷ b ∷ xs) h =
    let (ws, e, l) = unpack-even xs (omega (arith, h)) in
    ((a + b * 256) ∷ ws, rw e refl, omega (arith, l))

unpack-odd : (xs : List ℕ) → length xs % 2 ≡ 1 → unpack xs ≡ raise odd_fragment
unfolding unpack
unpack-odd [] h = absurd (omega (arith, h))
unpack-odd (b ∷ []) h = refl
unpack-odd (a ∷ b ∷ xs) h = rw (unpack-odd xs (omega (arith, h))) refl

-- Every second sample goes out.
length-halved :
    (prev : ℕ) (ws : List ℕ)
    → (length (converted 2 1 1 prev ws) ≡ (length ws + 1) / 2)
      × (length (converted 2 1 2 prev ws) ≡ length ws / 2)
unfolding converted written
length-halved prev [] = (refl, refl)
length-halved prev (w ∷ ws) =
    let (one, two) = length-halved w ws in (omega (arith, two), omega (arith, one))

ulaw_of_small : (w : ℕ) → ulaw_of w < 256
unfolding ulaw_of ulaw_byte segment
ulaw_of_small w = ground arith

map-ulaw_of_small : (ws : List ℕ) → All (λ b. b < 256) (map ulaw_of ws)
map-ulaw_of_small [] = tt
map-ulaw_of_small (w ∷ ws) = (ulaw_of_small w, map-ulaw_of_small ws)

pub refused_payload :
    (pcm : List ℕ) → length pcm % 2 ≡ 1 → pcm16_to_ulaw_b64 pcm ≡ raise odd_fragment
unfolding pcm16_to_ulaw_b64 ratecv
refused_payload pcm h = rw (unpack-odd pcm h) refl

-- A byte of μ-law for each four of PCM16.
pub payload_sized :
    (pcm : List ℕ)
    → length pcm % 2 ≡ 0
    → (payload : String) × (us : List ℕ) × (pcm16_to_ulaw_b64 pcm ≡ ok payload)
      × (b64decode payload ≡ ok us)
      × (length us ≡ (length pcm + 2) / 4)
unfolding pcm16_to_ulaw_b64 ratecv lin2ulaw reduced gcd
payload_sized pcm h =
    let (ws, e, l) = unpack-even pcm h in
    let vs = converted 2 1 1 0 ws in
    let us = map ulaw_of vs in
    (
      b64encode us,
      us,
      rw (e, unpack-pack vs) refl,
      b64decode-b64encode us (map-ulaw_of_small vs),
      omega (arith, l, length-map ulaw_of vs, (length-halved 0 ws).0),
    )
