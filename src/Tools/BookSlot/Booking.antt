-- ===== src/Tools/BookSlot/Booking.antt =====
-- When a booking is confirmed, and under which id.
use fastapi_claude_voice_age.Base.{◌≡◌, refl, ◌⊎◌, inl, inr, arith, suc, String, some}
use fastapi_claude_voice_age.Python.{
  Result-cases, str, Fields, get, item, Exn, Result, ok, raise, ◌>>=◌, key_error, type_error,
  value_error, overflow_error, attribute_error, runtime_error, other,
}
use fastapi_claude_voice_age.Tools.World.{World}
use fastapi_claude_voice_age.Tools.Texts.{to_int}
use fastapi_claude_voice_age.Tools.BookSlot.{
  bad_timestamp, confirmation, next_id, timestamp, booked, book_slot,
}

-- No id is drawn, and a dict that is answered is the one for a bad timestamp.
pub Refused : Result Fields × World → World → Type 0
Refused o w =
    (o.1 ≡ w)
    × ((d : Fields)
        → o.0 ≡ ok d
        → get "error" d ≡ some (str "starts_at is not a valid ISO 8601 timestamp"))

-- The timestamp was read as `starts_at`, one id is drawn, and a dict that is answered confirms the
-- booking under this id at this time.
pub Drawn : Result String → Result Fields × World → World → Type 0
Drawn read o w =
    (starts_at : String) × (read ≡ ok starts_at)
    × (o.1 ≡ record w { drawn = suc w.drawn })
    × ((d : Fields)
        → o.0 ≡ ok d
        → (get "booking_id" d ≡ some (str (next_id w)))
          × (get "status" d ≡ some (str "confirmed"))
          × (get "starts_at" d ≡ some (str starts_at)))

bad_timestamp-error :
    (e : Exn) (d : Fields)
    → bad_timestamp e ≡ ok d
    → get "error" d ≡ some (str "starts_at is not a valid ISO 8601 timestamp")
unfolding bad_timestamp get
bad_timestamp-error (value_error m) d h = ground (arith, h)
bad_timestamp-error (key_error m) d h = ground (arith, h)
bad_timestamp-error (type_error m) d h = ground (arith, h)
bad_timestamp-error (overflow_error m) d h = ground (arith, h)
bad_timestamp-error (attribute_error m) d h = ground (arith, h)
bad_timestamp-error (runtime_error m) d h = ground (arith, h)
bad_timestamp-error (other m) d h = ground (arith, h)

module _ (repr : String → String) where
  confirmation-fields :
      (booking_id starts_at : String) (args d : Fields)
      → confirmation repr booking_id starts_at args ≡ ok d
      → (get "booking_id" d ≡ some (str booking_id))
        × (get "status" d ≡ some (str "confirmed"))
        × (get "starts_at" d ≡ some (str starts_at))
  unfolding confirmation get
  confirmation-fields booking_id starts_at args d h =
      elim (Result-cases (item "duration_minutes" args)) [
        | inr (x, e) ↦ ground (arith, h, e)
        | inl (m, e) ↦ elim (Result-cases (to_int repr m)) [
          | inr (x, f) ↦ ground (arith, h, e, f)
          | inl (n, f) ↦ elim (Result-cases (item "customer_name" args)) [
            | inr (x, g) ↦ ground (arith, h, e, f, g)
            | inl (c, g) ↦ elim (Result-cases (item "customer_phone" args)) [
              | inr (x, k) ↦ ground (arith, h, e, f, g, k)
              | inl (p, k) ↦ ground (arith, h, e, f, g, k)
            ]
          ]
        ]
      ]

  booked-cases :
      (read : Result String) (args : Fields) (w : World)
      → Refused (booked repr read args w) w ⊎ Drawn read (booked repr read args w) w
  unfolding booked Refused Drawn
  booked-cases (raise e) args w = inl (refl, λ d h. bad_timestamp-error e d h)
  booked-cases (ok starts_at) args w =
      inr (starts_at, refl, refl, λ d h. confirmation-fields (next_id w) starts_at args d h)

  -- `book_slot` either draws no booking id, and then the only dict that it answers is the error of
  -- a bad timestamp; or it read the timestamp and drew one id, and any dict that it answers
  -- confirms the booking under that id at that time.
  pub book_slot-Drawn :
      (args : Fields) (w : World)
      → Refused (book_slot repr args w) w
        ⊎ Drawn (item "starts_at" args >>= timestamp repr) (book_slot repr args w) w
  unfolding book_slot
  book_slot-Drawn args w = booked-cases (item "starts_at" args >>= timestamp repr) args w
