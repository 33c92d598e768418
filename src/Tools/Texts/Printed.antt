-- ===== src/Tools/Texts/Printed.antt =====
-- The characters of a number that is written with leading zeros.
use Prim.Native.String.{String, [], ◌∷◌}
use Prim.Native.String.append
use Prim.Native.Char.{code}
use fastapi_claude_voice_age.Base.{
  ◌≡◌, refl, sym, ap, ◌∙◌, arith, ℕ, zero, suc, ◌+◌, ◌/◌, ◌%◌, ◌<◌, ◌<>◌, Bool, true, false, ◌&&◌,
  eqb, eqb→eq, &&-both, all_below, all_below-each,
}
use fastapi_claude_voice_age.Base
use fastapi_claude_voice_age.Base.{List, ◌++◌}
use fastapi_claude_voice_age.Base.Text.{codes}
use fastapi_claude_voice_age.Tools.Texts.{prefix, suffix, digit_text, padded}

pub codes-append : (s t : String) → codes (s <> t) ≡ codes s ++ codes t
codes-append [] t = ap codes (append.nil t)
codes-append (c ∷ s) t =
    ap codes (append.cons c s t) ∙ ap (λ cs. Base.◌∷◌ (code c) cs) (codes-append s t)

is_one : ℕ → List ℕ → Bool
is_one c Base.[] = false
is_one c (Base.◌∷◌ d Base.[]) = eqb d c
is_one c (Base.◌∷◌ d (Base.◌∷◌ e cs)) = false

is_one-list : (c : ℕ) (cs : List ℕ) → is_one c cs ≡ true → cs ≡ Base.◌∷◌ c Base.[]
unfolding is_one
is_one-list c Base.[] h = absurd (ground (arith, h))
is_one-list c (Base.◌∷◌ d Base.[]) h = ap (λ x. Base.◌∷◌ x Base.[]) (eqb→eq d c h)
is_one-list c (Base.◌∷◌ d (Base.◌∷◌ e cs)) h = absurd (ground (arith, h))

is_printed : ℕ → Bool
unfolding is_one digit_text
is_printed n = is_one (48 + n) (codes (digit_text n))

all_printed : all_below 10 is_printed ≡ true
unfolding all_below is_printed is_one digit_text prefix suffix
all_printed = refl

pub codes-digit_text : (n : ℕ) → codes (digit_text (n % 10)) ≡ Base.◌∷◌ (48 + n % 10) Base.[]
unfolding is_printed
codes-digit_text n =
    is_one-list (48 + n % 10) (codes (digit_text (n % 10)))
      (all_below-each 10 is_printed (n % 10) all_printed (omega arith))

-- The last digit comes after the others.
codes-padded :
    (width n : ℕ)
    → codes (padded (suc width) n) ≡ codes (padded width (n / 10)) ++ Base.◌∷◌ (48 + n % 10) Base.[]
unfolding padded
codes-padded width n =
    codes-append (padded width (n / 10)) (digit_text (n % 10))
    ∙ ap (λ cs. codes (padded width (n / 10)) ++ cs) (codes-digit_text n)

pub two_digits :
    (n : ℕ) → codes (padded 2 n) ≡ Base.◌∷◌ (48 + n / 10 % 10) (Base.◌∷◌ (48 + n % 10) Base.[])
unfolding padded
two_digits n = rw (codes-padded 1 n, codes-padded 0 (n / 10)) refl

pub four_digits :
    (n : ℕ)
    → codes (padded 4 n)
      ≡ Base.◌∷◌ (48 + n / 10 / 10 / 10 % 10) (
          Base.◌∷◌
            (48 + n / 10 / 10 % 10)
            (Base.◌∷◌ (48 + n / 10 % 10) (Base.◌∷◌ (48 + n % 10) Base.[])))
unfolding padded
four_digits n =
    rw
      (
        codes-padded 3 n,
        codes-padded 2 (n / 10),
        codes-padded 1 (n / 10 / 10),
        codes-padded 0 (n / 10 / 10 / 10),
      )
      refl
