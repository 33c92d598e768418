-- ===== src/Tools/Texts.antt =====
-- The conversions of Python's standard library that the tools call: `int` and
-- `isoformat`. Decimal digits are the ASCII ones. `repr` of a text is a parameter.
pub mod Printed
use mathlib.Core.Option
use Prim.Native.String.{String, [], ◌∷◌}
use fastapi_claude_voice_age.Base.{
  ℕ, zero, suc, ◌+◌, ◌-◌, ◌*◌, ◌/◌, ◌%◌, ◌^◌, ◌<>◌, Bool, true, false, ◌&&◌, eqb, leb,
  if◌then◌else◌, Option, none, some, List, [], ◌∷◌,
}
use fastapi_claude_voice_age.Base.Int.{ℤ, pos, negsuc}
use fastapi_claude_voice_age.Base.Text.{codes}
use fastapi_claude_voice_age.Python.{
  Json, null, bool, int, float, str, arr, obj, Result, ok, raise, type_error, value_error,
  overflow_error, is_space, all_spaces,
}
use fastapi_claude_voice_age.Python.Numbers.{finite, infinite, nan}
use fastapi_claude_voice_age.Tools.Calendar.{Date}

-- `s[:n]`
unfoldable pub prefix : ℕ → String → String
prefix zero s = ""
prefix (suc n) [] = []
prefix (suc n) (c ∷ s) = c ∷ prefix n s

-- `s[n:]`
unfoldable pub suffix : ℕ → String → String
suffix zero s = s
suffix (suc n) [] = []
suffix (suc n) (c ∷ s) = suffix n s

unfoldable pub digit_text : ℕ → String
unfolding prefix suffix
digit_text n = prefix 1 (suffix n "0123456789")

-- `f"{n:0{width}d}"` for an n of at most `width` digits
unfoldable pub padded : ℕ → ℕ → String
unfolding digit_text
padded zero n = ""
padded (suc width) n = padded width (n / 10) <> digit_text (n % 10)

-- `d.isoformat()`
unfoldable pub date_text : Date → String
unfolding padded
date_text d = padded 4 d.year <> ("-" <> (padded 2 d.month <> ("-" <> padded 2 d.day)))

unfoldable pub is_digit : ℕ → Bool
is_digit c = leb 48 c && leb c 57

-- `int(s)`: white space around the number, a sign, single underscores between digits. `seen` tells
-- that the last character was a digit.
int_digits : Bool → ℕ → List ℕ → Option ℕ
unfolding is_digit all_spaces
int_digits seen acc [] = if seen then some acc else none
int_digits seen acc (c ∷ cs) =
    let digit = int_digits true (10 * acc + (c - 48)) cs in
    let underscore = int_digits false acc cs in
    if is_digit c
    then digit
    else if seen && eqb c 95
    then underscore
    else if seen && all_spaces (c ∷ cs)
    then some acc
    else none

negative : ℕ → ℤ
negative zero = pos zero
negative (suc n) = negsuc n

signed_int : List ℕ → Option ℤ
unfolding int_digits negative
signed_int [] = none
signed_int (c ∷ cs) =
    if eqb c 45
    then Option.map negative (int_digits false 0 cs)
    else if eqb c 43
    then Option.map pos (int_digits false 0 cs)
    else Option.map pos (int_digits false 0 (c ∷ cs))

stripped_int : List ℕ → Option ℤ
unfolding signed_int is_space
stripped_int [] = none
stripped_int (c ∷ cs) =
    let rest = stripped_int cs in if is_space c then rest else signed_int (c ∷ cs)

-- Towards zero.
truncated : ℕ → ℤ → ℕ
truncated m (pos e) = m * 2 ^ e
truncated m (negsuc e) = m / 2 ^ suc e

not_a_number : String → Result ℤ
not_a_number type_name = raise (
    type_error (
      "int() argument must be a string, a bytes-like object or a real number, not '"
      <> (type_name <> "'")))

module _ (repr : String → String) where
  -- `int(value)`
  unfoldable pub to_int : Json → Result ℤ
  unfolding stripped_int truncated negative not_a_number
  to_int null = not_a_number "NoneType"
  to_int (bool b) = ok (pos (if b then 1 else 0))
  to_int (int n) = ok n
  to_int (float (finite sign m e)) =
      ok (if sign then negative (truncated m e) else pos (truncated m e))
  to_int (float (infinite sign)) = raise (overflow_error "cannot convert float infinity to integer")
  to_int (float nan) = raise (value_error "cannot convert float NaN to integer")
  to_int (str s) = elim (stripped_int (codes s)) [
    | some n ↦ ok n
    | none ↦ raise (value_error ("invalid literal for int() with base 10: " <> repr s))
  ]
  to_int (arr vs) = not_a_number "list"
  to_int (obj d) = not_a_number "dict"
