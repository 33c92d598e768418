-- ===== src/Tools/SendConfirmation.antt =====
-- app/tools/send_confirmation.py: a text message through Twilio, unless Twilio is not configured.
-- `create` is what Twilio's client does with a message: whether Twilio took it, and the text of its sid
-- or an exception. An exception leaves open whether it was taken: a timeout may come after that.
use fastapi_claude_voice_age.Base.{◌<>◌, String, Bool, not, ◌∷◌, if◌then◌else◌}
use fastapi_claude_voice_age.Base.Int.{pos}
use fastapi_claude_voice_age.Python.{
  Json, int, str, arr, obj, nil, cons, Fields, field, end, Result, ok, raise, item,
}
use fastapi_claude_voice_age.Settings.{Settings, twilio_configured}
use fastapi_claude_voice_age.Tools.World.{World, Sms, Handler}

unfoldable pub send_confirmation_spec : Fields
send_confirmation_spec = field "name" (str "send_confirmation_sms") (
    field "description"
      (str (
        "Send an SMS confirming a booking. Only call after `book_slot` "
        <> "succeeds. Keep the message under 160 characters."))
      (field "input_schema"
        (obj (
          field "type" (str "object") (
            field "properties"
              (obj (
                field "to_phone"
                  (obj
                    (field "type" (str "string") (field "pattern" (str "^\\+[1-9]\\d{6,14}$") end)))
                  (field "message"
                    (obj (
                      field "type" (str "string")
                        (field "minLength" (int (pos 1)) (field "maxLength" (int (pos 160)) end))))
                    end)))
              (field "required" (arr (cons (str "to_phone") (cons (str "message") nil))) end))))
        end))

module _ (settings : Settings)
    (create : (account_sid auth_token : String) → Sms → Bool × Result String) where
  -- `_send_sync` for this message, and what the tool answers.
  unfoldable pub sent : Sms → World → Result Fields × World
  sent sms w =
      let (taken, answer) = create settings.twilio_account_sid settings.twilio_auth_token sms in
      let w' = if taken then record w { sent = sms ∷ w.sent } else w in
      elim answer [
        | raise e ↦ (raise e, w')
        | ok sid ↦
            (ok (field "status" (str "sent") (field "sid" (str sid) (field "to" sms.to end))), w')
      ]

  unfoldable pub skipped : Json → Result Fields
  skipped to = ok (
      field "status" (str "skipped")
        (field "reason" (str "twilio_not_configured") (field "to" to end)))

  unfoldable pub confirm : Result Json → Result Json → World → Result Fields × World
  unfolding sent skipped
  confirm (raise e) body w = (raise e, w)
  confirm (ok to) (raise e) w = (raise e, w)
  confirm (ok to) (ok body) w =
      if not (twilio_configured settings)
      then (skipped to, w)
      else sent (record { sender = settings.twilio_from_number; to = to; body = body }) w

  unfoldable pub send_confirmation : Handler
  unfolding confirm
  send_confirmation args w = confirm (item "to_phone" args) (item "message" args) w
