-- ===== src/Tools/BookSlot.antt =====
-- app/tools/book_slot.py: a confirmation with a fresh booking id.
pub mod Booking
pub mod Offered
mod Tests
use fastapi_claude_voice_age.Base.{suc, ◌<>◌, String}
use fastapi_claude_voice_age.Base.Int.{pos}
use fastapi_claude_voice_age.Python.{
  Json, int, str, arr, obj, nil, cons, Fields, field, end, Exn, type_error, value_error, Result, ok,
  raise, ◌>>=◌, item, get_or,
}
use fastapi_claude_voice_age.Tools.World.{World, Handler}
use fastapi_claude_voice_age.Tools.Texts.{prefix, to_int}
use fastapi_claude_voice_age.Tools.IsoDatetime.{datetime_text}

starts_at_schema : Fields
starts_at_schema = field "type" (str "string") (
    field "format" (str "date-time") (
      field "description"
        (str (
          "ISO 8601 timestamp of the slot, must match a value "
          <> "returned by check_availability."))
        end))

duration_schema : Fields
duration_schema =
    field "type" (str "integer")
      (field "minimum" (int (pos 15)) (field "maximum" (int (pos 240)) end))

customer_name_schema : Fields
customer_name_schema =
    field "type" (str "string")
      (field "minLength" (int (pos 1)) (field "maxLength" (int (pos 100)) end))

customer_phone_schema : Fields
customer_phone_schema = field "type" (str "string") (
    field "description" (str "E.164 phone (e.g. +66812345678).")
      (field "pattern" (str "^\\+[1-9]\\d{6,14}$") end))

notes_schema : Fields
notes_schema = field "type" (str "string") (field "maxLength" (int (pos 500)) end)

properties : Fields
unfolding starts_at_schema duration_schema customer_name_schema customer_phone_schema notes_schema
properties = field "starts_at" (obj starts_at_schema) (
    field "duration_minutes" (obj duration_schema) (
      field "customer_name" (obj customer_name_schema) (
        field "customer_phone" (obj customer_phone_schema) (field "notes" (obj notes_schema) end))))

unfoldable pub book_slot_spec : Fields
unfolding properties
book_slot_spec = field "name" (str "book_slot") (
    field "description"
      (str (
        "Book a specific appointment slot. Only call after `check_availability` "
        <> "and after the caller has explicitly confirmed the time."))
      (field "input_schema"
        (obj (
          field "type" (str "object") (
            field "properties" (obj properties) (
              field "required"
                (arr (
                  cons (str "starts_at") (
                    cons (str "duration_minutes")
                      (cons (str "customer_name") (cons (str "customer_phone") nil)))))
                end))))
        end))

-- `except ValueError`
unfoldable pub bad_timestamp : Exn → Result Fields
bad_timestamp (value_error m) =
    ok (field "error" (str "starts_at is not a valid ISO 8601 timestamp") end)
bad_timestamp e = raise e

-- The dict after the id is drawn, whose fields are computed in their order.
unfoldable pub confirmation : (String → String) → String → String → Fields → Result Fields
confirmation repr booking_id starts_at args = do
  m ← item "duration_minutes" args
  duration ← to_int repr m
  customer_name ← item "customer_name" args
  customer_phone ← item "customer_phone" args
  ok (
      field "booking_id" (str booking_id) (
        field "status" (str "confirmed") (
          field "starts_at" (str starts_at) (
            field "duration_minutes" (int duration) (
              field "customer_name" customer_name (
                field "customer_phone" customer_phone
                  (field "notes" (get_or "notes" args (str "")) end)))))))

-- `f"bk_{uuid.uuid4().hex[:10]}"`
unfoldable pub next_id : World → String
unfolding prefix
next_id w = "bk_" <> prefix 10 (w.hex w.drawn)

-- `datetime.fromisoformat(value).isoformat()`
unfoldable pub timestamp : (String → String) → Json → Result String
unfolding datetime_text
timestamp repr (str s) = datetime_text repr s
timestamp repr _ = raise (type_error "fromisoformat: argument must be str")

module _ (repr : String → String) where
  unfoldable pub booked : Result String → Fields → World → Result Fields × World
  unfolding bad_timestamp confirmation next_id
  booked (raise e) args w = (bad_timestamp e, w)
  booked (ok starts_at) args w =
      (confirmation repr (next_id w) starts_at args, record w { drawn = suc w.drawn })

  unfoldable pub book_slot : Handler
  unfolding booked timestamp
  book_slot args w = booked (item "starts_at" args >>= timestamp repr) args w
