-- ===== src/Tools/BookSlot/Tests.antt =====
-- Slots that are offered and booked, and timestamps that are read.
use fastapi_claude_voice_age.Base.{◌≡◌, refl, String, [], ◌∷◌, All, map, take, drop, arith, ◌<>◌}
use fastapi_claude_voice_age.Base.Int.{pos}
use fastapi_claude_voice_age.Python.{Fields, field, end, str, int, Result, ok, raise}
use fastapi_claude_voice_age.Tools.World.{World}
use fastapi_claude_voice_age.Tools.Calendar.{Date, IsDate, days_in_month}
use fastapi_claude_voice_age.Tools.CheckAvailability.{fake_slots}
use fastapi_claude_voice_age.Tools.IsoDatetime.{datetime_text}
use fastapi_claude_voice_age.Tools.BookSlot.Offered.{IsBookable, fake_slots-IsBookable}

abbrev quoted : String → String
quoted s = "'" <> (s <> "'")

abbrev caller_args : Fields
caller_args =
    field "duration_minutes" (int (pos 150))
      (field "customer_name" (str "Ann") (field "customer_phone" (str "+66812345678") end))

abbrev demo_world : World
demo_world = record { now = 0; hex = λ n. "0123456789abcdef"; drawn = 0; sent = [] }

-- A Friday, whose last slot is too late for an appointment of two hours and a half.
abbrev friday : Date
friday = record { year = 2026; month = 4; day = 17 }

friday-IsDate : IsDate friday
unfolding days_in_month
friday-IsDate = record {
  year_from = omega arith;
  year_to = omega arith;
  month_from = omega arith;
  month_to = omega arith;
  day_from = omega arith;
  day_to = omega arith;
}

fake_slots-IsBookable_example :
    All (IsBookable quoted caller_args demo_world friday) (fake_slots friday (pos 150))
fake_slots-IsBookable_example =
    fake_slots-IsBookable quoted caller_args demo_world friday (pos 150) friday-IsDate

three_slots :
    fake_slots friday (pos 150)
    ≡ "2026-04-17T09:00+07:00" ∷ "2026-04-17T11:00+07:00" ∷ "2026-04-17T14:00+07:00" ∷ []
unfolding fake_slots
three_slots = refl

show_read : Result String → String
show_read (ok s) = s
show_read (raise e) = "error"

read_back :
    map
      (λ s. show_read (datetime_text quoted s))
      ("2026-W17-1T09:00Z" ∷ "20260420 0900" ∷ "2026W171T09:00:00,5+07" ∷ "2026-04-20"
        ∷ "2026-04-20T09:+07:00" ∷ "2026-04-20T09:00-03:30:15" ∷ "2026-04-20T24:00"
        ∷ "2026-04-20T09:0000" ∷ [])
    ≡ "2026-04-20T09:00:00+00:00" ∷ "2026-04-20T09:00:00" ∷ "2026-04-20T09:00:00.500000+07:00"
      ∷ "2026-04-20T00:00:00" ∷ "2026-04-20T09:00:00+07:00" ∷ "2026-04-20T09:00:00-03:30:15"
      ∷ "error" ∷ "error" ∷ []
unfolding datetime_text take drop show_read
read_back = refl
