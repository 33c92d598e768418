-- ===== src/Tools/BookSlot/Offered.antt =====
-- Every slot that check_availability offers can be booked.
use fastapi_claude_voice_age.Base.{
  ◌≡◌, refl, arith, inl, inr, suc, String, leb, List, [], ◌∷◌, All, some, Bool-cases, ◌==◌, eq_iff,
}
use fastapi_claude_voice_age.Base.Int.{ℤ}
use fastapi_claude_voice_age.Python.{Json, str, Fields, field, end, get, item, put, ok}
use fastapi_claude_voice_age.Tools.World.{World}
use fastapi_claude_voice_age.Tools.Calendar.{Date, IsDate, weekday}
use fastapi_claude_voice_age.Tools.CheckAvailability.{
  Time, times, slot_text, slots_at, fake_slots, ends_in_time,
}
use fastapi_claude_voice_age.Tools.IsoDatetime.{datetime_text}
use fastapi_claude_voice_age.Tools.IsoDatetime.Slots.{stamp_text, datetime_text-slot_text}
use fastapi_claude_voice_age.Tools.BookSlot.{confirmation, next_id, timestamp, booked, book_slot}

get-put : (k : String) (v : Json) (d : Fields) → get k (put k v d) ≡ some v
unfolding get put
get-put k v end = ground (arith, eq_iff k k)
get-put k v (field j w d) = elim (Bool-cases (j == k)) [
  | inl e ↦ rw (e, put, get, e) refl
  | inr e ↦ rw (e, put, get, e) (get-put k v d)
]

item-put : (k : String) (v : Json) (d : Fields) → item k (put k v d) ≡ ok v
unfolding item
item-put k v d = rw (item, get-put k v d) refl

module _ (repr : String → String) (args : Fields) (w : World) (d : Date) where
  -- The arguments with a slot to book.
  abbrev pub choosing : String → Fields
  choosing slot = put "starts_at" (str slot) args

  -- The slot is one of a time of day, and booking it draws one id and confirms that day and time.
  pub IsBookable : String → Type 0
  IsBookable slot =
      (t : Time) × (slot ≡ slot_text d t)
      × (book_slot repr (choosing slot) w ≡ (
        confirmation repr (next_id w) (stamp_text d t) (choosing slot),
        record w { drawn = suc w.drawn },
      ))

  slot_text-IsBookable :
      (t : Time)
      → datetime_text repr (slot_text d t) ≡ ok (stamp_text d t)
      → IsBookable (slot_text d t)
  unfolding IsBookable book_slot timestamp booked
  slot_text-IsBookable t h = (t, refl, rw (item-put "starts_at" (str (slot_text d t)) args, h) refl)

  slots_at-IsBookable :
      (ts : List Time) (duration : ℤ)
      → All (λ t. datetime_text repr (slot_text d t) ≡ ok (stamp_text d t)) ts
      → All IsBookable (slots_at ts d duration)
  unfolding slots_at
  slots_at-IsBookable [] duration h = tt
  slots_at-IsBookable (t ∷ ts) duration h = elim (Bool-cases (ends_in_time t duration)) [
    | inl e ↦ rw e (slot_text-IsBookable t h.0, slots_at-IsBookable ts duration h.1)
    | inr e ↦ rw e (slots_at-IsBookable ts duration h.1)
  ]

  -- Each slot that check_availability offers for a day of the calendar is one of a time of that day;
  -- and whatever the other arguments are, book_slot reads it as that day and time, draws one booking
  -- id, and answers the confirmation of that time with them, or raises what their reading raises.
  pub fake_slots-IsBookable : (duration : ℤ) → IsDate d → All IsBookable (fake_slots d duration)
  unfolding fake_slots
  fake_slots-IsBookable duration v = elim (Bool-cases (leb 5 (weekday d))) [
    | inl e ↦ rw e tt
    | inr e ↦ rw e (slots_at-IsBookable times duration (datetime_text-slot_text repr d v))
  ]
