-- ===== src/Tools/IsoDate/Printed.antt =====
-- A date is read as it was printed.
use fastapi_claude_voice_age.Base.{
  ◌≡◌, refl, ap, ◌∙◌, arith, ℕ, suc, ◌+◌, ◌-◌, ◌*◌, ◌/◌, ◌%◌, ◌<◌, true, false, eqb, some, List, [],
  ◌∷◌,
}
use fastapi_claude_voice_age.Tools.Calendar.{Date}
use fastapi_claude_voice_age.Tools.Texts.{is_digit}
use fastapi_claude_voice_age.Tools.IsoDate.{
  digits, expect, ended, separator, month_day, after_year, after_digits, scan,
}

digits-front :
    (n acc q : ℕ) (cs : List ℕ)
    → q < 10
    → digits (suc n) acc ((48 + q) ∷ cs) ≡ digits n (10 * acc + q) cs
unfolding digits is_digit
digits-front n acc q cs h =
    let same : 48 + q - 48 ≡ q = omega arith in
    let digit : is_digit (48 + q) ≡ true = ground (arith, h) in rw (digit, same) refl

pub two_read :
    (n : ℕ) (cs : List ℕ)
    → n < 100
    → digits 2 0 ((48 + n / 10 % 10) ∷ (48 + n % 10) ∷ cs) ≡ some (n, cs)
unfolding digits
two_read n cs h =
    let all : 10 * (10 * 0 + n / 10 % 10) + n % 10 ≡ n = omega (arith, h) in
    digits-front 1 0 (n / 10 % 10) ((48 + n % 10) ∷ cs) (omega arith)
    ∙ digits-front 0 (10 * 0 + n / 10 % 10) (n % 10) cs (omega arith)
    ∙ ap (λ m. some (m, cs)) all

four_read :
    (n : ℕ) (cs : List ℕ)
    → n < 10000
    → digits 4 0 (
        (48 + n / 10 / 10 / 10 % 10)
        ∷ (48 + n / 10 / 10 % 10)
        ∷ (48 + n / 10 % 10)
        ∷ (48 + n % 10)
        ∷ cs)
      ≡ some (n, cs)
unfolding digits
four_read n cs h =
    let a : ℕ = n / 10 / 10 / 10 % 10 in
    let b : ℕ = n / 10 / 10 % 10 in
    let c : ℕ = n / 10 % 10 in
    let d : ℕ = n % 10 in
    let all : 10 * (10 * (10 * (10 * 0 + a) + b) + c) + d ≡ n = omega (arith, h) in
    digits-front 3 0 a ((48 + b) ∷ (48 + c) ∷ (48 + d) ∷ cs) (omega arith)
    ∙ digits-front 2 (10 * 0 + a) b ((48 + c) ∷ (48 + d) ∷ cs) (omega arith)
    ∙ digits-front 1 (10 * (10 * 0 + a) + b) c ((48 + d) ∷ cs) (omega arith)
    ∙ digits-front 0 (10 * (10 * (10 * 0 + a) + b) + c) d cs (omega arith)
    ∙ ap (λ m. some (m, cs)) all

-- YYYY-MM-DD
abbrev pub printed : Date → List ℕ
printed d =
    (48 + d.year / 10 / 10 / 10 % 10)
    ∷ (48 + d.year / 10 / 10 % 10)
    ∷ (48 + d.year / 10 % 10)
    ∷ (48 + d.year % 10)
    ∷ 45
    ∷ (48 + d.month / 10 % 10)
    ∷ (48 + d.month % 10)
    ∷ 45
    ∷ (48 + d.day / 10 % 10)
    ∷ (48 + d.day % 10)
    ∷ []

pub scan-printed :
    (d : Date) → d.year < 10000 → d.month < 100 → d.day < 100 → scan (printed d) ≡ some d
unfolding scan after_digits after_year month_day separator expect ended
scan-printed d hy hm hd =
    let no_week : eqb (48 + d.month / 10 % 10) 87 ≡ false = ground arith in
    rw (four_read d.year _ hy, no_week, two_read d.month _ hm, two_read d.day [] hd) refl
