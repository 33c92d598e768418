-- ===== src/Tools/CheckAvailability.antt =====
-- app/tools/check_availability.py: the open slots of a window of dates.
pub mod Window
use fastapi_claude_voice_age.Base.{
  ◌≡◌, refl, ℕ, zero, suc, ◌+◌, ◌-◌, ◌*◌, ◌<>◌, String, Bool, true, false, not, ltb, leb,
  if◌then◌else◌, List, [], ◌∷◌, ◌++◌,
}
use fastapi_claude_voice_age.Base.Int.{ℤ, pos, ◌+ℤ◌, leb_ℤ}
use fastapi_claude_voice_age.Python.{
  Json, null, bool, int, str, arr, obj, Items, nil, cons, Fields, field, end, Result, ok, raise,
  ◌>>=◌, runtime_error, item, get_or,
}
use fastapi_claude_voice_age.Tools.World.{World, Handler}
use fastapi_claude_voice_age.Tools.Calendar.{Date, ordinal, weekday, leb_date, next_day}
use fastapi_claude_voice_age.Tools.Texts.{padded, date_text, to_int}
use fastapi_claude_voice_age.Tools.IsoDate.{date_from}

from_date_schema : Fields
from_date_schema = field "type" (str "string") (
    field "format" (str "date")
      (field "description" (str "Start date (YYYY-MM-DD), inclusive.") end))

to_date_schema : Fields
to_date_schema = field "type" (str "string") (
    field "format" (str "date") (field "description" (str "End date (YYYY-MM-DD), inclusive.") end))

duration_schema : Fields
duration_schema = field "type" (str "integer") (
    field "minimum" (int (pos 15))
      (field "maximum" (int (pos 240)) (field "default" (int (pos 30)) end)))

input_schema : Fields
unfolding from_date_schema to_date_schema duration_schema
input_schema = field "type" (str "object") (
    field "properties"
      (obj (
        field "from_date" (obj from_date_schema) (
          field "to_date" (obj to_date_schema)
            (field "duration_minutes" (obj duration_schema) end))))
      (field "required" (arr (cons (str "from_date") (cons (str "to_date") nil))) end))

unfoldable pub check_availability_spec : Fields
unfolding input_schema
check_availability_spec = field "name" (str "check_availability") (
    field "description"
      (str (
        "Return open appointment slots between two dates inclusive. "
        <> ("Use this whenever the caller asks about availability or before "
            <> ("calling `book_slot`. Times are returned in ISO 8601 with a "
                <> "timezone offset."))))
      (field "input_schema" (obj input_schema) end))

pub record Time : Type 0 where
  pub hour : ℕ
  pub minute : ℕ

abbrev pub times : List Time
times =
    record { hour = 9; minute = 0 }
    ∷ record { hour = 11; minute = 0 }
    ∷ record { hour = 14; minute = 0 }
    ∷ record { hour = 16; minute = 0 }
    ∷ []

-- `datetime.combine(d, t).isoformat(timespec="minutes") + "+07:00"`
unfoldable pub slot_text : Date → Time → String
unfolding date_text padded
slot_text d t =
    date_text d <> ("T" <> (padded 2 t.hour <> (":" <> (padded 2 t.minute <> "+07:00"))))

unfoldable pub ends_in_time : Time → ℤ → Bool
unfolding ◌+ℤ◌
ends_in_time t duration = leb_ℤ (pos (t.hour * 60 + t.minute) +ℤ duration) (pos (18 * 60))

unfoldable pub slots_at : List Time → Date → ℤ → List String
unfolding slot_text ends_in_time
slots_at [] d duration = []
slots_at (t ∷ ts) d duration =
    if ends_in_time t duration
    then slot_text d t ∷ slots_at ts d duration
    else slots_at ts d duration

-- `_fake_slots`
unfoldable pub fake_slots : Date → ℤ → List String
unfolding weekday slots_at
fake_slots d duration = if leb 5 (weekday d) then [] else slots_at times d duration

-- The loop `while cur <= to_date`. The fuel that it is given is one for each day of the window, and
-- one for the test that ends it.
unfoldable pub slots_until : ℕ → Date → Date → ℤ → Result (List String)
unfolding leb_date next_day fake_slots
slots_until zero cur to duration = raise (runtime_error "out of fuel")
slots_until (suc n) cur to duration = elim (leb_date cur to) [
  | false ↦ ok []
  | true ↦ do
    next ← next_day cur
    rest ← slots_until n next to duration
    ok (fake_slots cur duration ++ rest)
]

texts : List String → Items
texts [] = nil
texts (t ∷ ts) = cons (str t) (texts ts)

unfoldable pub refusal : String → Result Fields
refusal text = ok (field "error" (str text) end)

unfoldable pub answer : ℤ → List String → Result Fields
unfolding texts
answer duration slots =
    ok (field "duration_minutes" (int duration) (field "slots" (arr (texts slots)) end))

unfoldable pub in_window : Date → Date → ℤ → Result Fields
unfolding refusal
in_window from to duration =
    if not (leb_date from to)
    then refusal "to_date must be on or after from_date"
    else if ltb 14 (ordinal to - ordinal from)
    then refusal "window cannot exceed 14 days"
    else slots_until (ordinal to - ordinal from + 2) from to duration >>= answer duration

module _ (repr : String → String) where
  unfoldable pub available : Fields → Result Fields
  available args = do
    f ← item "from_date" args
    from ← date_from repr f
    t ← item "to_date" args
    to ← date_from repr t
    duration ← to_int repr (get_or "duration_minutes" args (int (pos 30)))
    in_window from to duration

  unfoldable pub check_availability : Handler
  unfolding available
  check_availability args w = (available args, w)

  -- The arguments are read in this order.
  pub available-read :
      (args : Fields) (f t : Json) (from to : Date) (duration : ℤ)
      → item "from_date" args ≡ ok f
      → date_from repr f ≡ ok from
      → item "to_date" args ≡ ok t
      → date_from repr t ≡ ok to
      → to_int repr (get_or "duration_minutes" args (int (pos 30))) ≡ ok duration
      → available args ≡ in_window from to duration
  unfolding available
  available-read args f t from to duration hf df ht dt hd = rw (hf, df, ht, dt, hd) refl
