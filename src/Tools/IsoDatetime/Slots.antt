-- ===== src/Tools/IsoDatetime/Slots.antt =====
-- A slot that the caller is offered is read as the day and time that it was printed from.
use fastapi_claude_voice_age.Base.{
  ◌≡◌, refl, ap, ◌∙◌, arith, ℕ, ◌+◌, ◌/◌, ◌%◌, ◌<◌, ◌<>◌, String, false, eqb, ltb, leb, Option,
  some, List, [], ◌∷◌, ◌++◌, All, length, take, drop,
}
use fastapi_claude_voice_age.Base.Text.{codes}
use fastapi_claude_voice_age.Python.{ok}
use fastapi_claude_voice_age.Tools.Calendar.{Date, IsDate, days_in_month}
use fastapi_claude_voice_age.Tools.Texts.{padded, date_text}
use fastapi_claude_voice_age.Tools.Texts.Printed.{codes-append, two_digits, four_digits}
use fastapi_claude_voice_age.Tools.IsoDate.{new_date}
use fastapi_claude_voice_age.Tools.IsoDate.Printed.{printed, scan-printed}
use fastapi_claude_voice_age.Tools.CheckAvailability
use fastapi_claude_voice_age.Tools.CheckAvailability.{times, slot_text}
use fastapi_claude_voice_age.Tools.IsoDatetime.{
  at, separator_at, parts, parsed, new_datetime, iso_text, datetime_text,
}
use fastapi_claude_voice_age.Tools.IsoDatetime.Clock.{Time, Offset, time_in}

codes-date_text : (d : Date) → codes (date_text d) ≡ printed d
unfolding date_text
codes-date_text d =
    rw
      (
        codes-append (padded 4 d.year) ("-" <> (padded 2 d.month <> ("-" <> padded 2 d.day))),
        codes-append "-" (padded 2 d.month <> ("-" <> padded 2 d.day)),
        codes-append (padded 2 d.month) ("-" <> padded 2 d.day),
        codes-append "-" (padded 2 d.day),
        four_digits d.year,
        two_digits d.month,
        two_digits d.day,
      )
      refl

small : (d : Date) → IsDate d → (d.year < 10000) × (d.month < 100) × (d.day < 100)
unfolding days_in_month
small d v =
    let last = v.day_to in
    let y = v.year_to in
    let m = v.month_to in (omega (arith, y), omega (arith, m), ground (arith, last))

new_date-IsDate_lem : (d : Date) → IsDate d → new_date d ≡ ok d
unfolding new_date
new_date-IsDate_lem d v =
    let a = v.year_from in
    let b = v.year_to in
    let c = v.month_from in
    let e = v.month_to in let f = v.day_from in let g = v.day_to in ground (arith, a, b, c, e, f, g)

parts-printed :
    (d : Date) (cs : List ℕ) (t : Time × Option Offset)
    → IsDate d
    → time_in cs ≡ some t
    → parts (printed d ++ (84 ∷ cs)) 10 ≡ some (d, t)
unfolding parts take drop
parts-printed d cs t v h =
    let (y, m, e) = small d v in
    let timed : leb (length (printed d ++ (84 ∷ cs))) 10 ≡ false = ground arith in
    rw (parts, scan-printed d y m e, timed, h) refl

parsed-printed :
    (d : Date) (cs : List ℕ) (t : Time × Option Offset)
    → IsDate d
    → time_in cs ≡ some t
    → parsed (printed d ++ (84 ∷ cs)) ≡ some (d, t)
unfolding parsed separator_at at
parsed-printed d cs t v h =
    let no_week : eqb (48 + d.month / 10 % 10) 87 ≡ false = ground arith in
    let long : ltb (length (printed d ++ (84 ∷ cs))) 7 ≡ false = ground arith in
    let longer : eqb (length (printed d ++ (84 ∷ cs))) 7 ≡ false = ground arith in
    rw (long, longer, no_week) (parts-printed d cs t v h)

-- A text of a date, a `T` and a time that is read.
datetime_text-date_text :
    (repr : String → String) (d : Date) (rest : String) (t : Time) (o : Option Offset)
    → IsDate d
    → time_in (codes rest) ≡ some (t, o)
    → new_datetime d t o ≡ ok tt
    → datetime_text repr (date_text d <> ("T" <> rest)) ≡ ok (iso_text d t o)
unfolding datetime_text
datetime_text-date_text repr d rest t o v h k =
    let read : codes (date_text d <> ("T" <> rest)) ≡ printed d ++ (84 ∷ codes rest) =
      codes-append (date_text d) ("T" <> rest)
      ∙ ap (λ cs. cs ++ codes ("T" <> rest)) (codes-date_text d)
      ∙ ap (λ cs. printed d ++ cs) (codes-append "T" rest) in
    let all = ap parsed read ∙ parsed-printed d (codes rest) (t, o) v h in
    rw (datetime_text, all, k) refl

-- What a slot becomes: the seconds are written too.
pub stamp_text : Date → CheckAvailability.Time → String
unfolding padded
stamp_text d t =
    date_text d <> ("T" <> (padded 2 t.hour <> (":" <> (padded 2 t.minute <> ":00+07:00"))))

seven_hours : Offset
seven_hours = record { behind = false; seconds = 25200; microseconds = 0 }

at_hour : ℕ → Time
at_hour h = record { hour = h; minute = 0; second = 0; microsecond = 0 }

in_range :
    (d : Date)
    → IsDate d
    → All (λ h. new_datetime d (at_hour h) (some seven_hours) ≡ ok tt) (9 ∷ 11 ∷ 14 ∷ 16 ∷ [])
unfolding new_datetime at_hour seven_hours
in_range d v =
    let e = new_date-IsDate_lem d v in (rw e refl, (rw e refl, (rw e refl, (rw e refl, tt))))

-- For the four times of day that the tool knows.
pub datetime_text-slot_text :
    (repr : String → String) (d : Date)
    → IsDate d
    → All (λ t. datetime_text repr (slot_text d t) ≡ ok (stamp_text d t)) times
unfolding slot_text stamp_text padded iso_text time_in at_hour seven_hours
datetime_text-slot_text repr d v =
    let (a, (b, (c, (e, u)))) = in_range d v in
    (
      datetime_text-date_text repr d "09:00+07:00" (at_hour 9) (some seven_hours) v refl a,
      (
        datetime_text-date_text repr d "11:00+07:00" (at_hour 11) (some seven_hours) v refl b,
        (
          datetime_text-date_text repr d "14:00+07:00" (at_hour 14) (some seven_hours) v refl c,
          (
            datetime_text-date_text repr d "16:00+07:00" (at_hour 16) (some seven_hours) v refl e,
            tt,
          ),
        ),
      ),
    )
