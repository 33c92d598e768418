-- ===== src/Python/Base64/RoundTrip.antt =====
-- Decoding gives back the bytes that were encoded.
use Prim.Native.Char.{code}
use fastapi_claude_voice_age.Base.{
  ◌≡◌, refl, ap, ◌∙◌, ℕ, ◌+◌, ◌*◌, ◌/◌, ◌%◌, ◌<◌, Bool, true, false, ◌&&◌, &&-both, Option, none,
  some, List, [], ◌∷◌, ◌++◌, eqb, ltb, arith, All, eqb→eq, all_below, all_below-each, not,
}
use fastapi_claude_voice_age.Base.Text.{codes}
use fastapi_claude_voice_age.Python.{ok}
use fastapi_claude_voice_age.Python.Base64.{
  char_at, symbol, b64encode, sextet, Reader, goes, start, taken, padded, feed, scan, is_ascii,
  b64decode,
}

reads : ℕ → Option ℕ → Bool
reads n none = false
reads n (some v) = eqb v n

-- What the decoder must see in a character that the encoder wrote.
is_symbol : ℕ → Bool
unfolding symbol sextet reads
is_symbol n =
    reads n (sextet (code (symbol n)))
    && (not (eqb (code (symbol n)) 61) && ltb (code (symbol n)) 128)

all_symbols : all_below 64 is_symbol ≡ true
unfolding all_below is_symbol symbol char_at sextet reads
all_symbols = refl

reads-some : (n : ℕ) (o : Option ℕ) → reads n o ≡ true → o ≡ some n
unfolding reads
reads-some n none h = cc
reads-some n (some v) h = ap some (eqb→eq v n h)

record IsReadable (n : ℕ) : Type 0 where
  meant : sextet (code (symbol n)) ≡ some n
  no_pad : eqb (code (symbol n)) 61 ≡ false
  ascii : ltb (code (symbol n)) 128 ≡ true

symbol-IsReadable : (n : ℕ) → n < 64 → IsReadable n
unfolding is_symbol
symbol-IsReadable n h =
    let c : ℕ = code (symbol n) in
    let (a, b) =
      &&-both (reads n (sextet c)) (not (eqb c 61) && ltb c 128)
        (all_below-each 64 is_symbol n all_symbols h) in
    let (d, e) = &&-both (not (eqb c 61)) (ltb c 128) b in
    record { meant = reads-some n (sextet c) a; no_pad = ground (arith, d); ascii = e }

feed-symbol : (n : ℕ) (r : Reader) → n < 64 → feed (code (symbol n)) r ≡ taken n r
unfolding feed
feed-symbol n r h = let s = symbol-IsReadable n h in rw (s.no_pad, feed) (ground (arith, s.meant))

-- One character of an encoded text, before a text that is read.
scan-symbol :
    (n : ℕ) (cs bs : List ℕ) (r r' : Reader) (out : List ℕ)
    → n < 64
    → taken n r ≡ goes out r'
    → scan cs r' ≡ ok bs
    → scan (code (symbol n) ∷ cs) r ≡ ok (out ++ bs)
unfolding scan
scan-symbol n cs bs r r' out h e f = rw (feed-symbol n r h ∙ e, scan, f) refl

pair : (quad left : ℕ) → Reader
pair quad left = record { quad = quad; left = left; pads = 0 }

IsByte : ℕ → Type 0
IsByte b = b < 256

-- A group of three bytes.
scan_group :
    (a b c : ℕ) (cs bs : List ℕ)
    → a < 256
    → b < 256
    → c < 256
    → scan cs start ≡ ok bs
    → scan
        (code (symbol (a / 4))
          ∷ code (symbol (a % 4 * 16 + b / 16))
          ∷ code (symbol (b % 16 * 4 + c / 64))
          ∷ code (symbol (c % 64))
          ∷ cs)
        start
      ≡ ok (a ∷ b ∷ c ∷ bs)
unfolding taken pair
scan_group a b c cs bs ha hb hc h =
    let x = a / 4 in
    let y = a % 4 * 16 + b / 16 in
    let z = b % 16 * 4 + c / 64 in
    let w = c % 64 in
    let all = scan-symbol x _ _ start (pair 1 x) [] (omega (arith, ha)) refl (
      scan-symbol y _ _ (pair 1 x) (pair 2 (y % 16)) ((x * 4 + y / 16) ∷ []) (omega (arith, hb))
        refl
        (scan-symbol z _ _ (pair 2 (y % 16)) (pair 3 (z % 4)) ((y % 16 * 16 + z / 4) ∷ [])
          (omega (arith, hc)) refl
          (scan-symbol w cs bs (pair 3 (z % 4)) start ((z % 4 * 64 + w) ∷ []) (omega arith) refl
            h))) in
    let first : x * 4 + y / 16 ≡ a = omega (arith, ha, hb) in
    let second : y % 16 * 16 + z / 4 ≡ b = omega (arith, hb, hc) in
    let third : z % 4 * 64 + w ≡ c = omega (arith, hc) in all ∙ rw (first, second, third) refl

-- The last group, of two bytes and of one.
scan_two :
    (a b : ℕ)
    → a < 256
    → b < 256
    → scan
        (code (symbol (a / 4))
          ∷ code (symbol (a % 4 * 16 + b / 16))
          ∷ code (symbol (b % 16 * 4))
          ∷ 61
          ∷ [])
        start
      ≡ ok (a ∷ b ∷ [])
unfolding taken pair scan feed padded
scan_two a b ha hb =
    let x = a / 4 in
    let y = a % 4 * 16 + b / 16 in
    let z = b % 16 * 4 in
    let first : x * 4 + y / 16 ≡ a = omega (arith, ha, hb) in
    let second : y % 16 * 16 + z / 4 ≡ b = omega (arith, hb) in
    let from_z =
      scan-symbol z (61 ∷ []) [] (pair 2 (y % 16)) (pair 3 (z % 4)) ((y % 16 * 16 + z / 4) ∷ [])
        (omega (arith, hb)) refl refl in
    let from_y =
      scan-symbol y (code (symbol z) ∷ 61 ∷ []) ((y % 16 * 16 + z / 4) ∷ []) (pair 1 x)
        (pair 2 (y % 16)) ((x * 4 + y / 16) ∷ []) (omega (arith, ha, hb)) refl from_z in
    scan-symbol x (code (symbol y) ∷ code (symbol z) ∷ 61 ∷ [])
      ((x * 4 + y / 16) ∷ (y % 16 * 16 + z / 4) ∷ []) start (pair 1 x) [] (omega (arith, ha)) refl
      from_y
    ∙ rw (first, second) refl

scan_one :
    (a : ℕ)
    → a < 256
    → scan (code (symbol (a / 4)) ∷ code (symbol (a % 4 * 16)) ∷ 61 ∷ 61 ∷ []) start ≡ ok (a ∷ [])
unfolding taken pair scan feed padded
scan_one a ha =
    let x = a / 4 in
    let y = a % 4 * 16 in
    let first : x * 4 + y / 16 ≡ a = omega (arith, ha) in
    let from_y =
      scan-symbol y (61 ∷ 61 ∷ []) [] (pair 1 x) (pair 2 (y % 16)) ((x * 4 + y / 16) ∷ [])
        (omega (arith, ha)) refl refl in
    scan-symbol x (code (symbol y) ∷ 61 ∷ 61 ∷ []) ((x * 4 + y / 16) ∷ []) start (pair 1 x) []
      (omega (arith, ha)) refl from_y
    ∙ rw first refl

scan-b64encode : (bs : List ℕ) → All IsByte bs → scan (codes (b64encode bs)) start ≡ ok bs
unfolding b64encode IsByte scan
scan-b64encode [] h = refl
scan-b64encode (a ∷ []) h = scan_one a h.0
scan-b64encode (a ∷ b ∷ []) h = scan_two a b h.0 h.1.0
scan-b64encode (a ∷ b ∷ c ∷ bs) h =
    scan_group a b c (codes (b64encode bs)) bs h.0 h.1.0 h.1.1.0 (scan-b64encode bs h.1.1.1)

b64encode-ascii : (bs : List ℕ) → All IsByte bs → is_ascii (codes (b64encode bs)) ≡ true
unfolding b64encode IsByte is_ascii
b64encode-ascii [] h = refl
b64encode-ascii (a ∷ []) h =
    let s = symbol-IsReadable (a / 4) (omega (arith, h.0)) in
    let t = symbol-IsReadable (a % 4 * 16) (omega arith) in rw (s.ascii, t.ascii) refl
b64encode-ascii (a ∷ b ∷ []) h =
    let s = symbol-IsReadable (a / 4) (omega (arith, h.0)) in
    let t = symbol-IsReadable (a % 4 * 16 + b / 16) (omega (arith, h.1.0)) in
    let u = symbol-IsReadable (b % 16 * 4) (omega arith) in rw (s.ascii, t.ascii, u.ascii) refl
b64encode-ascii (a ∷ b ∷ c ∷ bs) h =
    let s = symbol-IsReadable (a / 4) (omega (arith, h.0)) in
    let t = symbol-IsReadable (a % 4 * 16 + b / 16) (omega (arith, h.1.0)) in
    let u = symbol-IsReadable (b % 16 * 4 + c / 64) (omega (arith, h.1.1.0)) in
    let v = symbol-IsReadable (c % 64) (omega arith) in
    rw (s.ascii, t.ascii, u.ascii, v.ascii) (b64encode-ascii bs h.1.1.1)

-- The decoder gives back the bytes that were encoded.
pub b64decode-b64encode : (bs : List ℕ) → All (λ b. b < 256) bs → b64decode (b64encode bs) ≡ ok bs
unfolding b64decode IsByte
b64decode-b64encode bs h = rw (b64encode-ascii bs h) (scan-b64encode bs h)
