-- ===== src/Python/Numbers.antt =====
-- Floating-point numbers, as the doubles that JSON texts decode to.
use fastapi_claude_voice_age.Base.{ℕ, Bool}
use fastapi_claude_voice_age.Base.Int.{ℤ}

-- A finite value is `mantissa * 2 ^ exponent`, with a sign.
pub data Float : Type 0 where
  finite : (negative : Bool) (mantissa : ℕ) (exponent : ℤ) → Float
  infinite : (negative : Bool) → Float
  nan : Float
