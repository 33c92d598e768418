-- ===== src/Tools/Default/Execute.antt =====
-- The default registry runs each of the three tools under its name.
use fastapi_claude_voice_age.Base.{
  Bool, ap, ◌∙◌, ◌≡◌, refl, String, ◌<>◌, [], ◌∷◌, ◌==◌, if◌then◌else◌,
}
use fastapi_claude_voice_age.Python.{Fields, Result, ok}
use fastapi_claude_voice_age.Settings.{Settings}
use fastapi_claude_voice_age.Tools.World.{World, Sms}
use fastapi_claude_voice_age.Tools.Registry.{
  ToolEntry, ToolRegistry, register, tool_specs, execute, caught, error_dict, lookup, insert,
}
use fastapi_claude_voice_age.Tools.Registry.Laws.{execute-insert}
use fastapi_claude_voice_age.Tools.CheckAvailability.{check_availability_spec, check_availability}
use fastapi_claude_voice_age.Tools.BookSlot.{book_slot_spec, book_slot}
use fastapi_claude_voice_age.Tools.SendConfirmation.{send_confirmation_spec, send_confirmation}
use fastapi_claude_voice_age.Tools.Default.{build_default_registry}

module _ (repr : String → String) (settings : Settings)
    (create : (account_sid auth_token : String) → Sms → Bool × Result String) where
  abbrev checker : ToolEntry
  checker = record { spec = check_availability_spec; handler = check_availability repr }

  abbrev booker : ToolEntry
  booker = record { spec = book_slot_spec; handler = book_slot repr }

  abbrev sender : ToolEntry
  sender = record { spec = send_confirmation_spec; handler = send_confirmation settings create }

  execute_three :
      (called : String) (args : Fields) (w : World)
      → execute
          (insert "send_confirmation_sms" sender
            (insert "book_slot" booker (insert "check_availability" checker [])))
          called
          args
          w
        ≡ (if "send_confirmation_sms" == called
            then caught (send_confirmation settings create args w)
            else if "book_slot" == called
            then caught (book_slot repr args w)
            else if "check_availability" == called
            then caught (check_availability repr args w)
            else (error_dict ("unknown tool: " <> called), w))
  unfolding execute
  execute_three called args w =
      execute-insert _ "send_confirmation_sms" sender called args w
      ∙ ap
          (λ x.
            if "send_confirmation_sms" == called
            then caught (send_confirmation settings create args w)
            else x)
          (execute-insert _ "book_slot" booker called args w
            ∙ ap (λ x. if "book_slot" == called then caught (book_slot repr args w) else x)
                (execute-insert [] "check_availability" checker called args w))

  -- `build_default_registry` returns a registry that offers the three specifications in the order of
  -- registration. A call of one of their names runs that tool, whose exception becomes an error dict;
  -- a call of any other name is answered with an error dict that names it, and changes nothing.
  pub build_default_registry-execute :
      (r : ToolRegistry) × (build_default_registry repr settings create ≡ ok r)
      × (tool_specs r ≡ check_availability_spec ∷ book_slot_spec ∷ send_confirmation_spec ∷ [])
      × ((called : String) (args : Fields) (w : World)
          → execute r called args w ≡ (
              if "send_confirmation_sms" == called
              then caught (send_confirmation settings create args w)
              else if "book_slot" == called
              then caught (book_slot repr args w)
              else if "check_availability" == called
              then caught (check_availability repr args w)
              else (error_dict ("unknown tool: " <> called), w)))
  unfolding build_default_registry register tool_specs check_availability_spec book_slot_spec
      send_confirmation_spec execute lookup insert
  build_default_registry-execute = (_, refl, refl, λ called args w. execute_three called args w)
