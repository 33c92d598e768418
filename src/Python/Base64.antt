-- ===== src/Python/Base64.antt =====
-- Python's `base64.b64encode` and `base64.b64decode`, as app/pipeline calls them: without `validate`,
-- so that characters outside the alphabet are passed over.
pub mod RoundTrip
pub mod Bytes
mod Tests
use Prim.Native.Char.{Char, code}
use fastapi_claude_voice_age.Base.{
  ℕ, zero, suc, ◌+◌, ◌-◌, ◌*◌, ◌/◌, ◌%◌, String, Bool, true, false, ◌&&◌, Option, none, some, List,
  [], ◌∷◌, ◌++◌, leb, ltb, eqb, if◌then◌else◌,
}
use fastapi_claude_voice_age.Base.Text.{codes}
use fastapi_claude_voice_age.Python.{Result, ok, raise, value_error, other, ◌>>=◌}

char_at : String → ℕ → Char
char_at String.[] n = "="
char_at (String.◌∷◌ c s) zero = c
char_at (String.◌∷◌ c s) (suc n) = char_at s n

-- The character of six bits.
symbol : ℕ → Char
unfolding char_at
symbol n = char_at "ABCDEFGHIJKLMNOPQRSTUVWXYZabcdefghijklmnopqrstuvwxyz0123456789+/" n

unfoldable pub b64encode : List ℕ → String
unfolding symbol
b64encode [] = ""
b64encode (a ∷ []) = String.◌∷◌ (symbol (a / 4)) (String.◌∷◌ (symbol (a % 4 * 16)) "==")
b64encode (a ∷ b ∷ []) =
    String.◌∷◌ (symbol (a / 4))
      (String.◌∷◌ (symbol (a % 4 * 16 + b / 16)) (String.◌∷◌ (symbol (b % 16 * 4)) "="))
b64encode (a ∷ b ∷ c ∷ bs) = String.◌∷◌ (symbol (a / 4)) (
    String.◌∷◌ (symbol (a % 4 * 16 + b / 16))
      (String.◌∷◌ (symbol (b % 16 * 4 + c / 64)) (String.◌∷◌ (symbol (c % 64)) (b64encode bs))))

sextet : ℕ → Option ℕ
sextet c =
    if leb 65 c && leb c 90
    then some (c - 65)
    else if leb 97 c && leb c 122
    then some (c - 71)
    else if leb 48 c && leb c 57
    then some (c + 4)
    else if eqb c 43
    then some 62
    else if eqb c 47
    then some 63
    else none

-- Between two characters: how many of a group of four were read, the bits not yet given out, and the
-- `=` since the last of them.
pub record Reader : Type 0 where
  pub quad : ℕ
  pub left : ℕ
  pub pads : ℕ

-- What a character does: nothing after it is read, or some bytes come out.
pub data Feed : Type 0 where
  done : Feed
  goes : List ℕ → Reader → Feed

abbrev pub start : Reader
start = record { quad = 0; left = 0; pads = 0 }

-- Six more bits.
taken : ℕ → Reader → Feed
taken v r =
    if eqb r.quad 0
    then goes [] (record { quad = 1; left = v; pads = 0 })
    else if eqb r.quad 1
    then goes ((r.left * 4 + v / 16) ∷ []) (record { quad = 2; left = v % 16; pads = 0 })
    else if eqb r.quad 2
    then goes ((r.left * 16 + v / 4) ∷ []) (record { quad = 3; left = v % 4; pads = 0 })
    else goes ((r.left * 64 + v) ∷ []) start

-- A `=` counts only after two characters of a group, and ends the text when it fills the group.
padded : Reader → Feed
padded r =
    if leb 2 r.quad
    then (if leb 4 (r.quad + (r.pads + 1)) then done else goes [] (record r { pads = r.pads + 1 }))
    else goes [] r

feed : ℕ → Reader → Feed
unfolding taken padded sextet
feed c r = if eqb c 61 then padded r else elim (sextet c) [ none ↦ goes [] r | some v ↦ taken v r ]

-- An incomplete group is a `binascii.Error`.
scan : List ℕ → Reader → Result (List ℕ)
unfolding feed
scan [] r = if eqb r.quad 0 then ok [] else raise (other "binascii.Error")
scan (c ∷ cs) r = elim (feed c r) [
  | done ↦ ok []
  | goes out r' ↦ (scan cs r' >>= λ bs. ok (out ++ bs))
]

is_ascii : List ℕ → Bool
is_ascii [] = true
is_ascii (c ∷ cs) = ltb c 128 && is_ascii cs

unfoldable pub b64decode : String → Result (List ℕ)
unfolding scan is_ascii
b64decode s =
    if is_ascii (codes s)
    then scan (codes s) start
    else raise (value_error "string argument should contain only ASCII characters")
