-- ===== src/Tools/Default.antt =====
-- `build_default_registry` of app/tools/registry.py: the three tools of the agent.
pub mod Execute
use fastapi_claude_voice_age.Base.{Bool, String, []}
use fastapi_claude_voice_age.Python.{Result, ◌>>=◌}
use fastapi_claude_voice_age.Settings.{Settings}
use fastapi_claude_voice_age.Tools.World.{Sms}
use fastapi_claude_voice_age.Tools.Registry.{ToolRegistry, register}
use fastapi_claude_voice_age.Tools.CheckAvailability.{check_availability_spec, check_availability}
use fastapi_claude_voice_age.Tools.BookSlot.{book_slot_spec, book_slot}
use fastapi_claude_voice_age.Tools.SendConfirmation.{send_confirmation_spec, send_confirmation}

module _ (repr : String → String) (settings : Settings)
    (create : (account_sid auth_token : String) → Sms → Bool × Result String) where
  unfoldable pub build_default_registry : Result ToolRegistry
  build_default_registry = do
    r ← register check_availability_spec (check_availability repr) []
    q ← register book_slot_spec (book_slot repr) r
    register send_confirmation_spec (send_confirmation settings create) q
