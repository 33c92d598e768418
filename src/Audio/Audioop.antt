-- ===== src/Audio/Audioop.antt =====
-- The functions of Python's `audioop` that app/pipeline/audio.py calls, for one channel of samples of
-- two bytes and no state. A sample is a word of 16 bits, the lower byte first; a negative one is its
-- two's complement.
use fastapi_claude_voice_age.Base.{
  ℕ, zero, suc, ◌+◌, ◌-◌, ◌*◌, ◌/◌, ◌%◌, ◌^◌, List, [], ◌∷◌, ◌++◌, map, leb, ltb, if◌then◌else◌,
}
use fastapi_claude_voice_age.Python.{Result, ok, raise, other, ◌>>=◌}

unfoldable pub pack : List ℕ → List ℕ
pack [] = []
pack (w ∷ ws) = (w % 256) ∷ (w / 256) ∷ pack ws

-- A fragment of an odd number of bytes is refused.
unfoldable pub unpack : List ℕ → Result (List ℕ)
unpack [] = ok []
unpack (b ∷ []) = raise (other "not a whole number of frames")
unpack (low ∷ high ∷ bs) = do ws ← unpack bs; ok ((low + high * 256) ∷ ws)

-- G.711: all bits of a byte are inverted; then come the sign, three bits of a segment and four of a
-- step in it.
unfoldable pub linear_of : ℕ → ℕ
linear_of u =
    let v : ℕ = 255 - u in
    let magnitude : ℕ = (v % 16 * 8 + 132) * 2 ^ (v % 128 / 16) - 132 in
    if leb 128 v then (65536 - magnitude) % 65536 else magnitude

-- The segment of a magnitude of 14 bits to which the bias is added: the first whose end is not below.
unfoldable pub segment : ℕ → ℕ
segment m =
    if leb m 63
    then 0
    else if leb m 127
    then 1
    else if leb m 255
    then 2
    else if leb m 511
    then 3
    else if leb m 1023
    then 4
    else if leb m 2047
    then 5
    else if leb m 4095
    then 6
    else if leb m 8191
    then 7
    else 8

-- The byte of a magnitude, with the bits that the sign inverts.
unfoldable pub ulaw_byte : (magnitude mask : ℕ) → ℕ
unfolding segment
ulaw_byte magnitude mask =
    let m : ℕ = (if ltb 8159 magnitude then 8159 else magnitude) + 33 in
    let seg : ℕ = segment m in
    if leb 8 seg then mask - 127 else mask - (seg * 16 + m / 2 ^ (seg + 1) % 16)

-- The sample is first cut to 14 bits, downwards.
unfoldable pub ulaw_of : ℕ → ℕ
unfolding ulaw_byte
ulaw_of w = if leb 32768 w then ulaw_byte ((65536 - w + 3) / 4) 127 else ulaw_byte (w / 4) 255

unfoldable pub ulaw2lin : List ℕ → List ℕ
unfolding pack linear_of
ulaw2lin fragment = pack (map linear_of fragment)

unfoldable pub lin2ulaw : List ℕ → Result (List ℕ)
unfolding unpack ulaw_of
lin2ulaw fragment = do ws ← unpack fragment; ok (map ulaw_of ws)

-- A sample moved by 2^15, so that none is negative, and back.
unfoldable pub moved : ℕ → ℕ
moved w = (w + 32768) % 65536

-- The sample between two, at `d` parts of `outrate` from the second back to the first. `audioop`
-- divides samples of 32 bits as doubles and cuts to 16 bits downwards, which at rates of ratio 2 is
-- exact but for that cut.
unfoldable pub between : (outrate d prev cur : ℕ) → ℕ
unfolding moved
between outrate d prev cur = moved ((moved prev * d + moved cur * (outrate - d)) / outrate)

module _ (inrate outrate : ℕ) where
  -- The samples that are written at `d`, and how far the next is behind the last of them. The fuel
  -- is more than the number of them.
  unfoldable pub written : (fuel d prev cur : ℕ) → List ℕ × ℕ
  unfolding between
  written zero d prev cur = ([], d)
  written (suc n) d prev cur =
      let (more, wait) = written n (d - inrate) prev cur in
      if ltb d inrate
      then (between outrate d prev cur ∷ [], inrate - d)
      else (between outrate d prev cur ∷ more, wait)

  -- The loop over the samples, `wait` before the next that is to be written.
  unfoldable pub converted : (wait prev : ℕ) → List ℕ → List ℕ
  unfolding written
  converted wait prev [] = []
  converted wait prev (cur ∷ ws) =
      if ltb outrate wait
      then converted (wait - outrate) cur ws
      else (let (out, next) = written outrate (outrate - wait) prev cur in
          out ++ converted next cur ws)

-- Euclid's loop; `b` and one more is enough fuel, since the second number gets less each time.
unfoldable pub gcd : (fuel a b : ℕ) → ℕ
gcd zero a b = a
gcd (suc n) a zero = a
gcd (suc n) a (suc b) = gcd n (suc b) (a % suc b)

-- The rates are first divided by what they have in common.
unfoldable pub reduced : (inrate outrate : ℕ) → ℕ × ℕ
unfolding gcd
reduced inrate outrate = let g : ℕ = gcd (suc outrate) inrate outrate in (inrate / g, outrate / g)

unfoldable pub ratecv : (inrate outrate : ℕ) → List ℕ → Result (List ℕ)
unfolding converted unpack pack reduced
ratecv inrate outrate fragment =
    let (i, o) = reduced inrate outrate in
    (unpack fragment >>= λ ws. ok (pack (converted i o o 0 ws)))
