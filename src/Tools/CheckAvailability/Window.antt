-- ===== src/Tools/CheckAvailability/Window.antt =====
-- The loop over the window of dates ends, and collects the slots of every day once, in order.
use fastapi_claude_voice_age.Base.{
  ℕ, zero, suc, ◌+◌, ◌-◌, ◌≤◌, ◌<◌, ◌≡◌, ap, ◌∙◌, String, true, false, ltb, eqb, if◌then◌else◌,
  List, [], ◌∷◌, ◌++◌, arith,
}
use fastapi_claude_voice_age.Base.Int.{ℤ, pos}
use fastapi_claude_voice_age.Python.{
  Exn, Json, int, item, get_or, Fields, field, end, str, Result, ok, raise, ◌>>=◌, overflow_error,
}
use fastapi_claude_voice_age.Tools.World.{World}
use fastapi_claude_voice_age.Tools.Texts.{to_int}
use fastapi_claude_voice_age.Tools.IsoDate.{date_from, date_from-IsDate}
use fastapi_claude_voice_age.Tools.Calendar.{
  Date, IsDate, ordinal, leb_date, succ_day, next_day, days,
}
use fastapi_claude_voice_age.Tools.Calendar.Order.{
  leb_date-ordinal, ordinal-succ_day, succ_day-IsDate, succ_day-year, succ_day-last, ordinal-to,
}
use fastapi_claude_voice_age.Tools.CheckAvailability.{
  available-read, check_availability, fake_slots, slots_until, answer, in_window,
}

-- The slots of these days, in their order.
pub slots_of : List Date → ℤ → List String
slots_of [] duration = []
slots_of (d ∷ ds) duration = fake_slots d duration ++ slots_of ds duration

next_day-succ_day : (d : Date) → IsDate d → ordinal d < 3652059 → next_day d ≡ ok (succ_day d)
unfolding next_day
next_day-succ_day d v l = ground (arith, succ_day-year d v l)

leb_date-le : (d e : Date) → IsDate d → IsDate e → ordinal d ≤ ordinal e → leb_date d e ≡ true
leb_date-le d e v w l = leb_date-ordinal d e v w ∙ (ground arith)

leb_date-lt : (d e : Date) → IsDate d → IsDate e → ordinal e < ordinal d → leb_date d e ≡ false
leb_date-lt d e v w l = leb_date-ordinal d e v w ∙ (ground arith)

slots_until-done :
    (n : ℕ) (cur to : Date) (duration : ℤ)
    → leb_date cur to ≡ false
    → slots_until (suc n) cur to duration ≡ ok []
unfolding slots_until
slots_until-done n cur to duration h = ground (arith, h)

slots_until-more :
    (n : ℕ) (cur to : Date) (duration : ℤ)
    → leb_date cur to ≡ true
    → next_day cur ≡ ok (succ_day cur)
    → slots_until (suc n) cur to duration
      ≡ (do rest ← slots_until n (succ_day cur) to duration; ok (fake_slots cur duration ++ rest))
unfolding slots_until
slots_until-more n cur to duration h e = ground (arith, h, e)

slots_until-days :
    (n : ℕ) (cur to : Date) (duration : ℤ)
    → IsDate cur
    → IsDate to
    → ordinal to < 3652059
    → ordinal to + 1 ≡ n + ordinal cur
    → slots_until (suc n) cur to duration ≡ ok (slots_of (days n cur) duration)
unfolding days slots_of
slots_until-days zero cur to duration v w l e =
    slots_until-done zero cur to duration (leb_date-lt cur to v w (omega (arith, e)))
slots_until-days (suc n) cur to duration v w l e =
    let below : ordinal cur < 3652059 = omega (arith, e, l) in
    slots_until-more (suc n) cur to duration (leb_date-le cur to v w (omega (arith, e)))
      (next_day-succ_day cur v below)
    ∙ ap (λ r. r >>= λ rest. ok (fake_slots cur duration ++ rest))
        (slots_until-days n (succ_day cur) to duration
          (succ_day-IsDate cur v (succ_day-year cur v below)) w l
          (omega (arith, e, ordinal-succ_day cur v)))

next_day-last :
    (d : Date)
    → IsDate d
    → ordinal d ≡ 3652059
    → next_day d ≡ raise (overflow_error "date value out of range")
unfolding next_day
next_day-last d v l = ground (arith, succ_day-last d v (omega (arith, l)))

slots_until-raise :
    (n : ℕ) (cur to : Date) (duration : ℤ) (x : Exn)
    → leb_date cur to ≡ true
    → next_day cur ≡ raise x
    → slots_until (suc n) cur to duration ≡ raise x
unfolding slots_until
slots_until-raise n cur to duration x h e = ground (arith, h, e)

-- A window that holds the last date of the calendar.
slots_until-last :
    (n : ℕ) (cur to : Date) (duration : ℤ)
    → IsDate cur
    → IsDate to
    → ordinal to ≡ 3652059
    → ordinal to ≡ n + ordinal cur
    → slots_until (suc (suc n)) cur to duration ≡ raise (overflow_error "date value out of range")
slots_until-last zero cur to duration v w l e =
    slots_until-raise 1 cur to duration (overflow_error "date value out of range")
      (leb_date-le cur to v w (omega (arith, e))) (next_day-last cur v (omega (arith, l, e)))
slots_until-last (suc n) cur to duration v w l e =
    let below : ordinal cur < 3652059 = omega (arith, e, l) in
    slots_until-more (suc (suc n)) cur to duration (leb_date-le cur to v w (omega (arith, e)))
      (next_day-succ_day cur v below)
    ∙ ap (λ r. r >>= λ rest. ok (fake_slots cur duration ++ rest))
        (slots_until-last n (succ_day cur) to duration
          (succ_day-IsDate cur v (succ_day-year cur v below)) w l
          (omega (arith, e, ordinal-succ_day cur v)))

-- With the fuel that `in_window` gives.
slots_until-window :
    (from to : Date) (duration : ℤ)
    → IsDate from
    → IsDate to
    → ordinal from ≤ ordinal to
    → slots_until (ordinal to - ordinal from + 2) from to duration ≡ (
        if eqb (ordinal to) 3652059
        then raise (overflow_error "date value out of range")
        else ok (slots_of (days (suc (ordinal to - ordinal from)) from) duration))
slots_until-window from to duration v w l =
    let gap : ℕ = ordinal to - ordinal from in
    let ended : ordinal to ≡ 3652059
        → slots_until (suc (suc gap)) from to duration
          ≡ raise (overflow_error "date value out of range") =
      λ e. slots_until-last gap from to duration v w e (omega (arith, l)) in
    let before : ordinal to < 3652059
        → slots_until (suc (suc gap)) from to duration
          ≡ ok (slots_of (days (suc gap) from) duration) =
      λ e. slots_until-days (suc gap) from to duration v w e (omega (arith, l)) in
    let fuel : gap + 2 ≡ suc (suc gap) = omega arith in
    ap (λ n. slots_until n from to duration) fuel ∙ (ground (arith, ended, before, ordinal-to to w))

-- What the tool answers for two dates of the calendar, in ordinals.
pub expected : Date → Date → ℤ → Result Fields
expected from to duration =
    if ltb (ordinal to) (ordinal from)
    then ok (field "error" (str "to_date must be on or after from_date") end)
    else if ltb 14 (ordinal to - ordinal from)
    then ok (field "error" (str "window cannot exceed 14 days") end)
    else if eqb (ordinal to) 3652059
    then raise (overflow_error "date value out of range")
    else answer duration (slots_of (days (suc (ordinal to - ordinal from)) from) duration)

pub in_window-expected :
    (from to : Date) (duration : ℤ)
    → IsDate from
    → IsDate to
    → in_window from to duration ≡ expected from to duration
unfolding in_window expected
in_window-expected from to duration v w =
    ground (arith, leb_date-ordinal from to v w, slots_until-window from to duration v w)

-- If both dates are read as dates of the calendar and the duration as a whole number, the tool ends
-- and answers in the order of its checks: an error dict if the window is upside down or longer than
-- 14 days, the exception OverflowError if it holds the last date of the calendar, and else the
-- duration with the slots of each day from the first to the last, once and in order.
pub check_availability-expected :
    (repr : String → String) (args : Fields) (w : World) (f t : Json) (from to : Date)
    (duration : ℤ)
    → item "from_date" args ≡ ok f
    → date_from repr f ≡ ok from
    → item "to_date" args ≡ ok t
    → date_from repr t ≡ ok to
    → to_int repr (get_or "duration_minutes" args (int (pos 30))) ≡ ok duration
    → check_availability repr args w ≡ (expected from to duration, w)
unfolding check_availability
check_availability-expected repr args w f t from to duration hf df ht dt hd =
    ap (λ r. (r, w))
      (available-read repr args f t from to duration hf df ht dt hd
        ∙ in_window-expected from to duration (date_from-IsDate repr f from df)
            (date_from-IsDate repr t to dt))
