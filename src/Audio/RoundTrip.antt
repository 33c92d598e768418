-- ===== src/Audio/RoundTrip.antt =====
-- A caller's audio comes back out of the codec as it went in.
use fastapi_claude_voice_age.Base.{
  &&-both, eqb→eq, all_below, all_below-each, ◌≡◌, refl, ap, ℕ, ◌<◌, inl, inr, Bool, true, ◌&&◌,
  String, List, [], ◌∷◌, map, eqb, ltb, arith, All, ltb→lt, if◌then◌else◌,
}
use fastapi_claude_voice_age.Python.{Result-cases, ok, ◌>>=◌}
use fastapi_claude_voice_age.Python.Base64.{b64encode, b64decode}
use fastapi_claude_voice_age.Python.Base64.Bytes.{b64decode_bytes}
use fastapi_claude_voice_age.Audio.{ulaw_b64_to_pcm16, pcm16_to_ulaw_b64}
use fastapi_claude_voice_age.Audio.Audioop.{
  pack, unpack, linear_of, ulaw_of, ulaw_byte, segment, moved, between, written, converted, gcd,
  reduced, ratecv, ulaw2lin, lin2ulaw,
}

-- Of the two bytes for silence the codec knows one.
unfoldable pub canonical : ℕ → ℕ
canonical u = if eqb u 127 then 255 else u

good : ℕ → Bool
unfolding linear_of ulaw_of ulaw_byte segment canonical
good u = eqb (ulaw_of (linear_of u)) (canonical u) && ltb (linear_of u) 65536

all_good : all_below 256 good ≡ true
unfolding all_below good linear_of ulaw_of ulaw_byte segment canonical
all_good = refl

pub unpack-pack : (ws : List ℕ) → unpack (pack ws) ≡ ok ws
unfolding unpack pack
unpack-pack [] = refl
unpack-pack (w ∷ ws) = rw (unpack-pack ws) (ap (λ x. ok (x ∷ ws)) (omega arith))

IsWord : ℕ → Type 0
IsWord w = w < 65536

between_one : (prev cur : ℕ) → IsWord cur → between 1 0 prev cur ≡ cur
unfolding between moved IsWord
between_one prev cur h = omega (arith, h)

between_two : (prev cur : ℕ) → IsWord cur → between 2 0 prev cur ≡ cur
unfolding between moved IsWord
between_two prev cur h = omega (arith, h)

-- The way down takes back every second sample, and those are the samples that went up.
stepped_back :
    (prev q : ℕ) (ws : List ℕ) → All IsWord ws → converted 2 1 2 q (converted 1 2 1 prev ws) ≡ ws
unfolding converted written
stepped_back prev q [] h = refl
stepped_back prev q (w ∷ ws) h =
    rw (between_two prev w h.0, between_one (between 2 1 prev w) w h.0)
      (ap (◌∷◌ w) (stepped_back w w ws h.1))

converted_back : (ws : List ℕ) → All IsWord ws → converted 2 1 1 0 (converted 1 2 2 0 ws) ≡ ws
unfolding converted written
converted_back [] h = refl
converted_back (w ∷ ws) h =
    rw (between_two 0 w h.0, between_one 0 w h.0) (ap (◌∷◌ w) (stepped_back w w ws h.1))

IsByte : ℕ → Type 0
IsByte u = u < 256

good_byte : (u : ℕ) → IsByte u → (ulaw_of (linear_of u) ≡ canonical u) × IsWord (linear_of u)
unfolding good IsByte IsWord
good_byte u h =
    let (same, small) =
      &&-both (eqb (ulaw_of (linear_of u)) (canonical u)) (ltb (linear_of u) 65536)
        (all_below-each 256 good u all_good h) in
    (eqb→eq (ulaw_of (linear_of u)) (canonical u) same, ltb→lt (linear_of u) 65536 small)

words_of : (us : List ℕ) → All IsByte us → All IsWord (map linear_of us)
words_of [] h = tt
words_of (u ∷ us) h = ((good_byte u h.0).1, words_of us h.1)

bytes_back : (us : List ℕ) → All IsByte us → map ulaw_of (map linear_of us) ≡ map canonical us
bytes_back [] h = refl
bytes_back (u ∷ us) h = rw (good_byte u h.0).0 (ap (◌∷◌ (canonical u)) (bytes_back us h.1))

pub ratecv-pack :
    (inrate outrate : ℕ) (ws : List ℕ)
    → ratecv inrate outrate (pack ws)
      ≡ (let (i, o) = reduced inrate outrate in ok (pack (converted i o o 0 ws)))
unfolding ratecv
ratecv-pack inrate outrate ws = rw (unpack-pack ws) refl

-- A frame of μ-law that is turned into PCM16 and encoded again gives the base64 text of the same
-- μ-law bytes, but for the byte 127, silence with a minus sign, which comes back as 255, the other
-- byte for silence; and the only exception on the way is that of a payload that is no base64.
pub pcm16_to_ulaw_b64-ulaw_b64_to_pcm16 :
    (payload : String)
    → (ulaw_b64_to_pcm16 payload >>= pcm16_to_ulaw_b64)
      ≡ (b64decode payload >>= λ us. ok (b64encode (map canonical us)))
unfolding ulaw_b64_to_pcm16 pcm16_to_ulaw_b64 ulaw2lin lin2ulaw reduced gcd IsByte
pcm16_to_ulaw_b64-ulaw_b64_to_pcm16 payload = elim (Result-cases (b64decode payload)) [
  | inl (us, h) ↦
      let b = b64decode_bytes payload us h in
      let ws = map linear_of us in
      rw
        (
          h,
          ratecv-pack 8000 16000 ws,
          ratecv-pack 16000 8000 (converted 1 2 2 0 ws),
          converted_back ws (words_of us b),
          unpack-pack ws,
          bytes_back us b,
        )
        refl
  | inr (e, h) ↦ rw h refl
]
