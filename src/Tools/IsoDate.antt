-- ===== src/Tools/IsoDate.antt =====
-- `date.fromisoformat`: the forms YYYY-MM-DD, YYYYMMDD, YYYY-Www, YYYYWww, YYYY-Www-D and YYYYWwwD.
pub mod Printed
use fastapi_claude_voice_age.Base.{
  ◌≡◌, Option-cases, inl, inr, arith, ℕ, zero, suc, ◌+◌, ◌-◌, ◌*◌, ◌<>◌, String, Bool, true, false,
  ◌&&◌, ◌||◌, eqb, ltb, leb, if◌then◌else◌, Option, none, some, List, [], ◌∷◌,
}
use fastapi_claude_voice_age.Base.Text.{codes}
use fastapi_claude_voice_age.Python.{Json, str, Result, ok, raise, type_error, value_error}
use fastapi_claude_voice_age.Tools.Calendar.{
  Date, IsDate, is_leap, days_in_month, ordinal, weekday, first_of, succ_day,
}
use fastapi_claude_voice_age.Tools.Texts.{is_digit}

infixl 5 ◌>>=◌
abbrev ◌>>=◌ : {A B : Type 0} → Option A → (A → Option B) → Option B
none >>= f = none
some a >>= f = f a

-- `n` digits from the front, with the number they make after `acc`
unfoldable pub digits : ℕ → ℕ → List ℕ → Option (ℕ × List ℕ)
unfolding is_digit
digits zero acc cs = some (acc, cs)
digits (suc n) acc [] = none
digits (suc n) acc (c ∷ cs) =
    let rest = digits n (10 * acc + (c - 48)) cs in if is_digit c then rest else none

-- The rest after the character `c`.
expect : ℕ → List ℕ → Option (List ℕ)
expect c [] = none
expect c (d ∷ cs) = if eqb c d then some cs else none

ended : {A : Type 0} → A → List ℕ → Option A
ended a [] = some a
ended a (c ∷ cs) = none

-- The separator, where one is used.
separator : Bool → List ℕ → Option (List ℕ)
unfolding expect
separator true cs = expect 45 cs
separator false cs = some cs

month_day : Bool → ℕ → List ℕ → Option Date
unfolding digits separator ended
month_day sep y cs = do
  (m, ds) ← digits 2 0 cs
  es ← separator sep ds
  (d, fs) ← digits 2 0 es
  ended (record { year = y; month = m; day = d }) fs

-- The ordinal of the Monday of the first ISO week, and three days more.
week1_monday_late : ℕ → ℕ
unfolding ordinal weekday
week1_monday_late y =
    let first : Date = first_of y 1 in
    (ordinal first + 3 - weekday first) + (if ltb 3 (weekday first) then 7 else 0)

is_week : ℕ → ℕ → Bool
unfolding weekday
is_week y w =
    let first : Date = first_of y 1 in
    (leb 1 w && leb w 52)
    || (eqb w 53 && (eqb (weekday first) 3 || (eqb (weekday first) 2 && is_leap y)))

advance : ℕ → Date → Date
unfolding succ_day
advance zero d = d
advance (suc n) d = advance n (succ_day d)

-- Day `day` of ISO week `week`, counted from 29 December, the first day that week 1 may have.
of_week : ℕ → ℕ → ℕ → Option Date
unfolding is_week week1_monday_late advance ordinal
of_week y week day =
    if leb 1 y && is_week y week && leb 1 day && leb day 7
    then some (
        advance (week1_monday_late y + 7 * (week - 1) + (day - 1) - ordinal (first_of y 1))
          (record { year = y - 1; month = 12; day = 29 }))
    else none

-- The day of the week after the number of the week, or none.
day_of_week : Bool → List ℕ → Option ℕ
unfolding digits separator ended
day_of_week sep [] = some 1
day_of_week sep (c ∷ cs) = do ds ← separator sep (c ∷ cs); (day, es) ← digits 1 0 ds; ended day es

week_day : Bool → ℕ → List ℕ → Option Date
unfolding digits day_of_week of_week
week_day sep y cs = do (week, ds) ← digits 2 0 cs; day ← day_of_week sep ds; of_week y week day

after_year : Bool → ℕ → List ℕ → Option Date
unfolding month_day week_day
after_year sep y [] = none
after_year sep y (c ∷ cs) = if eqb c 87 then week_day sep y cs else month_day sep y (c ∷ cs)

after_digits : ℕ → List ℕ → Option Date
unfolding after_year
after_digits y [] = none
after_digits y (c ∷ cs) = if eqb c 45 then after_year true y cs else after_year false y (c ∷ cs)

unfoldable pub scan : List ℕ → Option Date
unfolding digits after_digits
scan cs = do (y, ds) ← digits 4 0 cs; after_digits y ds

-- `date(y, m, d)`. A year above 9999 is 10000, from its first days in the last ISO week before.
unfoldable pub new_date : Date → Result Date
unfolding days_in_month
new_date d =
    if eqb d.year 0
    then raise (value_error "year 0 is out of range")
    else if ltb 9999 d.year
    then raise (value_error "year 10000 is out of range")
    else if ltb d.month 1 || ltb 12 d.month
    then raise (value_error "month must be in 1..12")
    else if ltb d.day 1 || ltb (days_in_month d.year d.month) d.day
    then raise (value_error "day is out of range for month")
    else ok d

new_date-IsDate : (d : Date) → (e : Date) → new_date d ≡ ok e → IsDate e
unfolding new_date
new_date-IsDate d e h = ground (arith, h)

module _ (repr : String → String) where
  -- `date.fromisoformat(value)`
  unfoldable pub date_from : Json → Result Date
  unfolding scan new_date
  date_from (str s) = elim (scan (codes s)) [
    | some d ↦ new_date d
    | none ↦ raise (value_error ("Invalid isoformat string: " <> repr s))
  ]
  date_from _ = raise (type_error "fromisoformat: argument must be str")

  pub date_from-IsDate : (v : Json) (d : Date) → date_from v ≡ ok d → IsDate d
  unfolding date_from
  date_from-IsDate (str s) d h = elim (Option-cases (scan (codes s))) [
    | inl e ↦ ground (arith, e, h)
    | inr (c, e) ↦ new_date-IsDate c d (ground (arith, e, h))
  ]
  date_from-IsDate _ d h = ground (arith, h)
