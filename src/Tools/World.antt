-- ===== src/Tools/World.antt =====
-- What tools and turns see of the world outside the process, and change in it.
use fastapi_claude_voice_age.Base.{ℕ, ◌-◌, ◌/◌, String, List}
use fastapi_claude_voice_age.Python.{Json, Result, Fields}

pub record Sms : Type 0 where
  pub sender : String
  pub to : Json
  pub body : Json

-- `now` is `time.perf_counter()` in microseconds. `hex n` is the text of the n-th `uuid.uuid4()`,
-- `drawn` says how many were drawn, `sent` are the messages handed to Twilio, newest first.
pub record World : Type 0 where
  pub now : ℕ
  pub hex : ℕ → String
  pub drawn : ℕ
  pub sent : List Sms

-- An `async` handler: a dict or an exception, and the world after it.
abbrev pub Handler : Type 0
Handler = Fields → World → Result Fields × World

-- `int((time.perf_counter() - started) * 1000)`
unfoldable pub latency_ms : ℕ → World → ℕ
latency_ms started w = (w.now - started) / 1000
