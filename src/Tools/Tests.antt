-- ===== src/Tools/Tests.antt =====
-- The tools at concrete arguments.
use fastapi_claude_voice_age.Base.{
  Bool, ◌≡◌, refl, take, drop, String, true, some, [], ◌∷◌, ◌==◌, ◌<>◌, ◌⊎◌, if◌then◌else◌,
}
use fastapi_claude_voice_age.Base.Int.{pos, ◌+ℤ◌}
use fastapi_claude_voice_age.Python.{
  Fields, end, field, str, int, arr, nil, cons, get, get_or, ◌>>=◌, item, Result, other, ok, raise,
}
use fastapi_claude_voice_age.Tools.World.{World, Handler}
use fastapi_claude_voice_age.Settings.{Settings, default_settings}
use fastapi_claude_voice_age.Tools.World.{Sms}
use fastapi_claude_voice_age.Tools.Registry.{ToolRegistry, execute, caught, tool_specs, error_dict}
use fastapi_claude_voice_age.Tools.Calendar.{Date, ordinal, leb_date, next_day}
use fastapi_claude_voice_age.Tools.Texts.{to_int}
use fastapi_claude_voice_age.Tools.IsoDate.{date_from}
use fastapi_claude_voice_age.Tools.CheckAvailability.{
  check_availability, check_availability_spec, in_window, available, slots_until, fake_slots,
  answer,
}
use fastapi_claude_voice_age.Tools.CheckAvailability.Window.{expected, check_availability-expected}
use fastapi_claude_voice_age.Tools.BookSlot.{book_slot, book_slot_spec}
use fastapi_claude_voice_age.Tools.BookSlot.{timestamp, next_id, confirmation}
use fastapi_claude_voice_age.Tools.BookSlot.Booking.{Refused, Drawn, book_slot-Drawn}
use fastapi_claude_voice_age.Tools.SendConfirmation.{send_confirmation, send_confirmation_spec}
use fastapi_claude_voice_age.Tools.Default.{build_default_registry}
use fastapi_claude_voice_age.Tools.Default.Execute.{build_default_registry-execute}

abbrev failing : Handler
failing args w = (raise (other "no"), w)

abbrev spec : Fields
spec = field "name" (str "call_back") end

named : get "name" spec ≡ some (str "call_back")
unfolding get
named = refl

abbrev quoted : String → String
quoted s = "'" <> (s <> "'")

-- `fromisoformat` and `isoformat` on texts that have the standard form already.
abbrev same_text : String → Result String
same_text s = ok s

abbrev demo_settings : Settings
demo_settings = record default_settings {
  env = "development";
  public_base_url = "https://voice.example";
  anthropic_api_key = "a";
  deepgram_api_key = "d";
  elevenlabs_api_key = "e";
  twilio_account_sid = "AC1";
  twilio_auth_token = "t";
  twilio_from_number = "+15550001";
  twilio_validate_signature = true;
}

abbrev accepted : (account_sid auth_token : String) → Sms → Bool × Result String
accepted account_sid auth_token sms = (true, ok "SM1")

abbrev demo_world : World
demo_world = record { now = 0; hex = λ n. "0123456789abcdef"; drawn = 0; sent = [] }

-- Friday to Monday.
abbrev weekend_args : Fields
weekend_args = field "from_date" (str "2026-04-17") (field "to_date" (str "20260420") end)

abbrev friday : Date
friday = record { year = 2026; month = 4; day = 17 }

abbrev monday : Date
monday = record { year = 2026; month = 4; day = 20 }

available_on_weekend :
    available quoted weekend_args
    ≡ ok (
        field "duration_minutes" (int (pos 30)) (
          field "slots"
            (arr (
              cons (str "2026-04-17T09:00+07:00") (
                cons (str "2026-04-17T11:00+07:00") (
                  cons (str "2026-04-17T14:00+07:00") (
                    cons (str "2026-04-17T16:00+07:00") (
                      cons (str "2026-04-20T09:00+07:00") (
                        cons (str "2026-04-20T11:00+07:00") (
                          cons
                            (str "2026-04-20T14:00+07:00")
                            (cons (str "2026-04-20T16:00+07:00") nil)))))))))
            end))
unfolding available item get_or get date_from to_int in_window leb_date ordinal slots_until next_day
    fake_slots answer ◌+ℤ◌
available_on_weekend = refl

from_read : item "from_date" weekend_args ≡ ok (str "2026-04-17")
unfolding item
from_read = refl

to_read : item "to_date" weekend_args ≡ ok (str "20260420")
unfolding item
to_read = refl

friday_read : date_from quoted (str "2026-04-17") ≡ ok friday
unfolding date_from
friday_read = refl

monday_read : date_from quoted (str "20260420") ≡ ok monday
unfolding date_from
monday_read = refl

-- An ISO week.
week_read : date_from quoted (str "2026-W17-1") ≡ ok monday
unfolding date_from
week_read = refl

duration_read : to_int quoted (get_or "duration_minutes" weekend_args (int (pos 30))) ≡ ok (pos 30)
unfolding to_int get_or
duration_read = refl

text_read : to_int quoted (str " 1_20 ") ≡ ok (pos 120)
unfolding to_int
text_read = refl

check_availability-expected_example :
    check_availability quoted weekend_args demo_world
    ≡ (expected friday monday (pos 30), demo_world)
check_availability-expected_example =
    check_availability-expected quoted weekend_args demo_world (str "2026-04-17") (str "20260420")
      friday monday (pos 30) from_read friday_read to_read monday_read duration_read

build_default_registry-execute_example :
    (r : ToolRegistry) × (build_default_registry quoted demo_settings accepted ≡ ok r)
    × (tool_specs r ≡ check_availability_spec ∷ book_slot_spec ∷ send_confirmation_spec ∷ [])
    × ((called : String) (args : Fields) (w : World)
        → execute r called args w ≡ (
            if "send_confirmation_sms" == called
            then caught (send_confirmation demo_settings accepted args w)
            else if "book_slot" == called
            then caught (book_slot quoted args w)
            else if "check_availability" == called
            then caught (check_availability quoted args w)
            else (error_dict ("unknown tool: " <> called), w)))
build_default_registry-execute_example =
    build_default_registry-execute quoted demo_settings accepted

abbrev sms_args : Fields
sms_args = field "to_phone" (str "+66812345678") (field "message" (str "See you") end)

abbrev booking_args : Fields
booking_args = field "starts_at" (str "2026-04-17T09:00:00+07:00") (
    field "duration_minutes" (int (pos 30))
      (field "customer_name" (str "Ann") (field "customer_phone" (str "+66812345678") end)))

book_slot-Drawn_example :
    Refused (book_slot quoted booking_args demo_world) demo_world
    ⊎ Drawn
        (item "starts_at" booking_args >>= timestamp quoted)
        (book_slot quoted booking_args demo_world)
        demo_world
book_slot-Drawn_example = book_slot-Drawn quoted booking_args demo_world

booked_under_id :
    (book_slot quoted booking_args demo_world).0
    ≡ ok (
        field "booking_id" (str "bk_0123456789") (
          field "status" (str "confirmed") (
            field "starts_at" (str "2026-04-17T09:00:00+07:00") (
              field "duration_minutes" (int (pos 30)) (
                field "customer_name"
                  (str "Ann")
                  (field "customer_phone" (str "+66812345678") (field "notes" (str "") end)))))))
unfolding book_slot item get_or get confirmation to_int next_id take drop
booked_under_id = refl
