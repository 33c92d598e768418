-- ===== src/Tools/Calendar.antt =====
-- `datetime.date` as app/tools/check_availability.py uses it: the proleptic Gregorian calendar of
-- the years 1 to 9999.
mod Days
pub mod Order
use fastapi_claude_voice_age.Base.{
  ℕ, zero, suc, ◌+◌, ◌-◌, ◌*◌, ◌/◌, ◌%◌, ◌≤◌, Bool, true, false, not, ◌&&◌, ◌||◌, eqb, ltb, leb,
  if◌then◌else◌, List, [], ◌∷◌,
}
use fastapi_claude_voice_age.Python.{Result, ok, raise, overflow_error}

pub record Date : Type 0 where
  pub year : ℕ
  pub month : ℕ
  pub day : ℕ

abbrev pub is_leap : ℕ → Bool
is_leap y = eqb (y % 4) 0 && (not (eqb (y % 100) 0) || eqb (y % 400) 0)

unfoldable pub days_in_month : ℕ → ℕ → ℕ
days_in_month y m =
    if eqb m 2
    then (if is_leap y then 29 else 28)
    else if eqb m 4 || eqb m 6 || eqb m 9 || eqb m 11
    then 30
    else 31

unfoldable pub days_before_year : ℕ → ℕ
days_before_year y = 365 * (y - 1) + (y - 1) / 4 - (y - 1) / 100 + (y - 1) / 400

-- The days of the months before, which CPython has in a table.
unfoldable pub days_before_month : ℕ → ℕ → ℕ
unfolding days_in_month
days_before_month y zero = 0
days_before_month y (suc zero) = 0
days_before_month y (suc (suc m)) = days_before_month y (suc m) + days_in_month y (suc m)

-- `d.toordinal()`: the first of January of the year 1 has 1.
unfoldable pub ordinal : Date → ℕ
unfolding days_before_year days_before_month
ordinal d = days_before_year d.year + days_before_month d.year d.month + d.day

-- `d.weekday()`, Monday 0
unfoldable pub weekday : Date → ℕ
unfolding ordinal
weekday d = (ordinal d + 6) % 7

-- `d <= e`, which compares year, month and day in this order
unfoldable pub leb_date : Date → Date → Bool
leb_date d e =
    ltb d.year e.year
    || (eqb d.year e.year && (ltb d.month e.month || (eqb d.month e.month && leb d.day e.day)))

abbrev pub first_of : ℕ → ℕ → Date
first_of y m = record { year = y; month = m; day = 1 }

unfoldable pub succ_day : Date → Date
unfolding days_in_month
succ_day d =
    if ltb d.day (days_in_month d.year d.month)
    then record d { day = suc d.day }
    else if ltb d.month 12
    then first_of d.year (suc d.month)
    else first_of (suc d.year) 1

-- `d + timedelta(days=1)`
unfoldable pub next_day : Date → Result Date
unfolding succ_day
next_day d =
    let e : Date = succ_day d in
    if leb e.year 9999 then ok e else raise (overflow_error "date value out of range")

-- The dates that `date(y, m, d)` accepts.
pub record IsDate (d : Date) : Type 0 where
  pub year_from : 1 ≤ d.year
  pub year_to : d.year ≤ 9999
  pub month_from : 1 ≤ d.month
  pub month_to : d.month ≤ 12
  pub day_from : 1 ≤ d.day
  pub day_to : d.day ≤ days_in_month d.year d.month

-- `n` days on end.
unfoldable pub days : ℕ → Date → List Date
unfolding succ_day
days zero d = []
days (suc n) d = d ∷ days n (succ_day d)
