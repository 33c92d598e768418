-- ===== src/Tools/Calendar/Order.antt =====
-- The order of dates is that of their ordinals, and the next day has the next ordinal.
use fastapi_claude_voice_age.Base.{
  ℕ, suc, ◌+◌, ◌≤◌, ◌<◌, ◌≡◌, ap, sym, subst, ◌⊎◌, inl, inr, leb, arith,
}
use fastapi_claude_voice_age.Tools.Calendar.{
  Date, IsDate, days_in_month, days_before_year, days_before_month, ordinal, leb_date, succ_day,
  first_of,
}
use fastapi_claude_voice_age.Tools.Calendar.Days.{
  days_before_year-suc, days_before_month-suc, days_before_month-first, days_in_month_positive,
  days_before_month_year, days_before_month_later, days_before_year_later, ordinal_bound,
}

succ_day-cases :
    (d : Date)
    → IsDate d
    → ((d.day < days_in_month d.year d.month) × (succ_day d ≡ record d { day = suc d.day }))
      ⊎ (((d.day ≡ days_in_month d.year d.month)
            × (d.month < 12)
            × (succ_day d ≡ first_of d.year (suc d.month)))
          ⊎ ((d.day ≡ days_in_month d.year d.month)
              × (d.month ≡ 12)
              × (succ_day d ≡ first_of (suc d.year) 1)))
unfolding succ_day
succ_day-cases d v = ground arith

pub ordinal-succ_day : (d : Date) → IsDate d → ordinal (succ_day d) ≡ suc (ordinal d)
unfolding ordinal
ordinal-succ_day d v = elim (succ_day-cases d v) [
  | inl (l, e) ↦ omega (arith, ap ordinal e)
  | inr (inl (l, m, e)) ↦
      omega (arith, ap ordinal e, days_before_month-suc d.year d.month v.month_from, l)
  | inr (inr (l, m, e)) ↦ omega (
    arith,
    ap ordinal e,
    days_before_month-suc d.year d.month v.month_from,
    ap (λ m. days_before_month d.year (suc m)) m,
    l,
    days_before_month_year d.year,
    days_before_year-suc d.year v.year_from,
    days_before_month-first (suc d.year),
  )
]

-- A year, or a month of the same year, decides.
later_year : (d e : Date) → IsDate d → IsDate e → d.year < e.year → ordinal d < ordinal e
unfolding ordinal
later_year d e v w l =
    omega
      (arith, l, ordinal_bound d v, days_before_year_later d.year e.year v.year_from l, w.day_from)

later_month :
    (d e : Date) → IsDate d → IsDate e → d.year ≡ e.year → d.month < e.month → ordinal d < ordinal e
unfolding ordinal
later_month d e v w s l = omega (
  arith,
  l,
  ap days_before_year s,
  ap (λ y. days_before_month y e.month) s,
  v.day_to,
  w.day_from,
  days_before_month_later d.year d.month e.month v.month_from l,
)

same_month :
    (d e : Date) → d.year ≡ e.year → d.month ≡ e.month → ordinal d + e.day ≡ ordinal e + d.day
unfolding ordinal
same_month d e s l = omega (
  arith,
  ap days_before_year s,
  ap (λ y. days_before_month y e.month) s,
  ap (days_before_month d.year) l,
)

-- For dates of the calendar `d <= e` is the order of their ordinals.
pub leb_date-ordinal :
    (d e : Date) → IsDate d → IsDate e → leb_date d e ≡ leb (ordinal d) (ordinal e)
unfolding leb_date
leb_date-ordinal d e v w =
    let back : d.year ≡ e.year → e.month < d.month → ordinal e < ordinal d =
      λ s. later_month e d w v (sym s) in
    ground
      (arith, later_year d e v w, later_year e d w v, later_month d e v w, back, same_month d e)

pub succ_day-IsDate : (d : Date) → IsDate d → (succ_day d).year ≤ 9999 → IsDate (succ_day d)
succ_day-IsDate d v h = elim (succ_day-cases d v) [
  | inl (l, e) ↦ subst IsDate (sym e) (record {
    year_from = v.year_from;
    year_to = v.year_to;
    month_from = v.month_from;
    month_to = v.month_to;
    day_from = omega arith;
    day_to = omega (arith, l);
  })
  | inr (inl (l, m, e)) ↦ subst IsDate (sym e) (record {
    year_from = v.year_from;
    year_to = v.year_to;
    month_from = omega arith;
    month_to = omega (arith, m);
    day_from = omega arith;
    day_to = days_in_month_positive d.year (suc d.month);
  })
  | inr (inr (l, m, e)) ↦ subst IsDate (sym e) (record {
    year_from = omega arith;
    year_to = omega (arith, h, ap (λ d. d.year) e);
    month_from = omega arith;
    month_to = omega arith;
    day_from = omega arith;
    day_to = days_in_month_positive (suc d.year) 1;
  })
]

year_below : (y : ℕ) → days_before_year (suc y) < 3652059 → suc y ≤ 9999
unfolding days_before_year
year_below y l = omega (arith, l)

-- The last day of the calendar is the last to have no next day.
pub succ_day-year : (d : Date) → IsDate d → ordinal d < 3652059 → (succ_day d).year ≤ 9999
unfolding ordinal
succ_day-year d v l = elim (succ_day-cases d v) [
  | inl (_, e) ↦ omega (arith, v.year_to, ap (λ d. d.year) e)
  | inr (inl (_, m, e)) ↦ omega (arith, v.year_to, ap (λ d. d.year) e)
  | inr (inr (k, m, e)) ↦ omega (
    arith,
    ap (λ d. d.year) e,
    year_below d.year (
        omega (
          arith,
          l,
          k,
          days_before_month-suc d.year d.month v.month_from,
          ap (λ m. days_before_month d.year (suc m)) m,
          days_before_month_year d.year,
          days_before_year-suc d.year v.year_from,
        )),
  )
]

year_length_bound : (y : ℕ) → 1 ≤ y → y ≤ 9999 → days_before_year (suc y) ≤ 3652059
unfolding days_before_year
year_length_bound y h l = omega (arith, h, l)

-- No date has a larger ordinal than 31 December 9999.
pub ordinal-to : (d : Date) → IsDate d → ordinal d ≤ 3652059
unfolding ordinal
ordinal-to d v = omega (
  arith,
  ordinal_bound d v,
  days_before_year-suc d.year v.year_from,
  year_length_bound d.year v.year_from v.year_to,
)

le_or_lt : (a b : ℕ) → (a ≤ b) ⊎ (b < a)
le_or_lt a b = ground arith

pub succ_day-last : (d : Date) → IsDate d → 3652059 ≤ ordinal d → 9999 < (succ_day d).year
succ_day-last d v l = elim (le_or_lt (succ_day d).year 9999) [
  | inl le ↦
      omega (arith, l, ordinal-succ_day d v, ordinal-to (succ_day d) (succ_day-IsDate d v le))
  | inr lt ↦ lt
]
