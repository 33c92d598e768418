-- ===== src/Tools/Calendar/Days.antt =====
-- The days before a month and before a year.
use fastapi_claude_voice_age.Base.{
  ℕ, zero, suc, ◌+◌, ◌-◌, ◌≤◌, ◌<◌, ◌≡◌, refl, ap, arith, if◌then◌else◌,
}
use fastapi_claude_voice_age.Tools.Calendar.{
  Date, IsDate, is_leap, days_in_month, days_before_year, days_before_month,
}

pub days_before_year-suc :
    (y : ℕ)
    → 1 ≤ y
    → days_before_year (suc y) ≡ days_before_year y + (if is_leap y then 366 else 365)
unfolding days_before_year
days_before_year-suc y h = ground arith

pub days_before_month-suc :
    (y m : ℕ) → 1 ≤ m → days_before_month y (suc m) ≡ days_before_month y m + days_in_month y m
unfolding days_before_month
days_before_month-suc y zero h = omega (arith, h)
days_before_month-suc y (suc m) h = refl

pub days_before_month-first : (y : ℕ) → days_before_month y 1 ≡ 0
unfolding days_before_month
days_before_month-first y = refl

pub days_in_month_positive : (y m : ℕ) → 1 ≤ days_in_month y m
unfolding days_in_month
days_in_month_positive y m = ground arith

pub days_before_month_year : (y : ℕ) → days_before_month y 13 ≡ (if is_leap y then 366 else 365)
unfolding days_before_month days_in_month
days_before_month_year y = ground arith

days_before_month_mono : (y m k : ℕ) → 1 ≤ m → days_before_month y m ≤ days_before_month y (k + m)
days_before_month_mono y m zero h =
    let e : m ≡ 0 + m = omega arith in omega (arith, ap (days_before_month y) e)
days_before_month_mono y m (suc k) h =
    let e : suc (k + m) ≡ suc k + m = omega arith in
    omega (
      arith,
      ap (days_before_month y) e,
      days_before_month_mono y m k h,
      days_before_month-suc y (k + m),
    )

days_before_year_mono : (y k : ℕ) → 1 ≤ y → days_before_year y ≤ days_before_year (k + y)
days_before_year_mono y zero h =
    let e : y ≡ 0 + y = omega arith in omega (arith, ap days_before_year e)
days_before_year_mono y (suc k) h =
    ground (arith, days_before_year_mono y k h, days_before_year-suc (k + y))

-- A later month, or year, of which the day before is known.
pub days_before_month_later :
    (y m n : ℕ) → 1 ≤ m → m < n → days_before_month y m + days_in_month y m ≤ days_before_month y n
days_before_month_later y m n h l =
    let e : (n - suc m) + suc m ≡ n = omega (arith, l) in
    omega (
      arith,
      ap (days_before_month y) e,
      days_before_month_mono y (suc m) (n - suc m) (omega arith),
      days_before_month-suc y m h,
    )

pub days_before_year_later :
    (y z : ℕ)
    → 1 ≤ y
    → y < z
    → days_before_year y + (if is_leap y then 366 else 365) ≤ days_before_year z
days_before_year_later y z h l =
    let e : (z - suc y) + suc y ≡ z = omega (arith, l) in
    omega (
      arith,
      ap days_before_year e,
      days_before_year_mono (suc y) (z - suc y) (omega arith),
      days_before_year-suc y h,
    )

-- No date of a year is after its last day.
pub ordinal_bound :
    (d : Date)
    → IsDate d
    → days_before_month d.year d.month + d.day ≤ (if is_leap d.year then 366 else 365)
ordinal_bound d v = omega (
  arith,
  v.day_to,
  days_before_month_year d.year,
  days_before_month_later d.year d.month 13 v.month_from (omega (arith, v.month_to)),
)

-- The day after is in the same month, the next month or the next year.
