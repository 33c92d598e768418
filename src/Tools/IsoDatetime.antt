-- ===== src/Tools/IsoDatetime.antt =====
-- `datetime.fromisoformat(text).isoformat()` of Python 3.12, as book_slot calls it: a date, any one
-- character, and a time of day with or without an offset.
pub mod Clock
pub mod Slots
use fastapi_claude_voice_age.Base.{
  ℕ, zero, suc, ◌+◌, ◌-◌, ◌*◌, ◌/◌, ◌%◌, ◌^◌, ◌<>◌, String, Bool, true, false, not, ◌&&◌, ◌||◌, eqb,
  ltb, leb, if◌then◌else◌, Option, none, some, List, [], ◌∷◌, length, take, drop,
}
use fastapi_claude_voice_age.Base.Text.{codes}
use fastapi_claude_voice_age.Python.{Result, ok, raise, value_error}
use fastapi_claude_voice_age.Tools.Calendar.{Date}
use fastapi_claude_voice_age.Tools.Texts.{is_digit, padded, date_text}
use fastapi_claude_voice_age.Tools.IsoDate.{digits, scan, new_date}
use Clock.{Time, Offset, time_in}

-- The character at a place, 0 past the end.
at : ℕ → List ℕ → ℕ
at n [] = 0
at zero (c ∷ cs) = c
at (suc n) (c ∷ cs) = at n cs

digits_in_front : List ℕ → ℕ
unfolding is_digit
digits_in_front [] = 0
digits_in_front (c ∷ cs) = let more = digits_in_front cs in if is_digit c then suc more else 0

-- Where a text of at least 8 characters has its separator: after YYYY-MM-DD, YYYY-Www-D, YYYY-Www,
-- YYYYWww, YYYYWwwD or YYYYMMDD.
separator_at : List ℕ → Option ℕ
unfolding at digits_in_front is_digit
separator_at cs =
    if eqb (at 4 cs) 45
    then (if not (eqb (at 5 cs) 87)
        then some 10
        else if not (eqb (at 8 cs) 45)
        then some 8
        else if eqb (length cs) 9
        then none
        else if ltb 10 (length cs) && is_digit (at 10 cs)
        then some 8
        else some 10)
    else if eqb (at 4 cs) 87
    then (let pos : ℕ = 7 + digits_in_front (drop 7 cs) in
        if ltb pos 9 then some pos else if eqb (pos % 2) 0 then some 7 else some 8)
    else some 8

midnight : Time
midnight = record { hour = 0; minute = 0; second = 0; microsecond = 0 }

-- The date before the separator, and the time after it.
parts : List ℕ → ℕ → Option (Date × (Time × Option Offset))
unfolding scan time_in midnight
parts cs sep = elim (scan (take sep cs)) [
  | none ↦ none
  | some d ↦
      elim (if leb (length cs) sep then some (midnight, none) else time_in (drop (suc sep) cs)) [
        | none ↦ none
        | some t ↦ some (d, t)
      ]
]

parsed : List ℕ → Option (Date × (Time × Option Offset))
unfolding parts separator_at
parsed cs =
    if ltb (length cs) 7
    then none
    else if eqb (length cs) 7
    then parts cs 7
    else elim (separator_at cs) [ none ↦ none | some sep ↦ parts cs sep ]

-- `datetime(...)`, whose offset is checked first.
new_datetime : Date → Time → Option Offset → Result (Unit {0})
unfolding new_date
new_datetime d t o =
    if elim o [ none ↦ false | some o ↦ leb 86400 o.seconds ]
    then raise (value_error "offset must be a timedelta strictly between -1 and 1 days")
    else elim (new_date d) [
      | raise e ↦ raise e
      | ok d ↦
          if ltb 23 t.hour
          then raise (value_error "hour must be in 0..23")
          else if ltb 59 t.minute
          then raise (value_error "minute must be in 0..59")
          else if ltb 59 t.second
          then raise (value_error "second must be in 0..59")
          else ok tt
    ]

micros : ℕ → String
unfolding padded
micros n = if eqb n 0 then "" else "." <> padded 6 n

time_text : Time → String
unfolding padded micros
time_text t =
    padded 2 t.hour
    <> (":" <> (padded 2 t.minute <> (":" <> (padded 2 t.second <> micros t.microsecond))))

offset_text : Option Offset → String
unfolding padded micros
offset_text none = ""
offset_text (some o) =
    (if o.behind then "-" else "+")
    <> (padded 2 (o.seconds / 3600)
        <> (":"
            <> (padded 2 (o.seconds / 60 % 60)
                <> (if eqb (o.seconds % 60) 0 && eqb o.microseconds 0
                    then ""
                    else ":" <> (padded 2 (o.seconds % 60) <> micros o.microseconds)))))

-- `isoformat()`
iso_text : Date → Time → Option Offset → String
unfolding date_text time_text offset_text
iso_text d t o = date_text d <> ("T" <> (time_text t <> offset_text o))

module _ (repr : String → String) where
  unfoldable pub datetime_text : String → Result String
  unfolding parsed new_datetime iso_text
  datetime_text s = elim (parsed (codes s)) [
    | none ↦ raise (value_error ("Invalid isoformat string: " <> repr s))
    | some (d, (t, o)) ↦ elim (new_datetime d t o) [
      | raise e ↦ raise e
      | ok u ↦ ok (iso_text d t o)
    ]
  ]
