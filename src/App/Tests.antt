-- ===== src/App/Tests.antt =====
-- An application with the default settings, and its answers.
use fastapi_claude_voice_age.Base.{
  ◌≡◌, true, refl, ◌+◌, ◌≤◌, String, none, some, List, [], ◌∷◌, ◌==◌, if◌then◌else◌,
}
use fastapi_claude_voice_age.Python.{Exn, runtime_error, other, Result, ok, raise}
use fastapi_claude_voice_age.Gate.{CallGate}
use fastapi_claude_voice_age.Gate.System.{Event, session_opens, stream_arrives, run, start}
use fastapi_claude_voice_age.Settings.{
  default_settings, ParseResult, fields_ok, validate, validate_public_base_url,
  require_secrets_in_production, is_production,
}
use fastapi_claude_voice_age.Persistence.Engine.{Engine, factory, dispose_engine}
use fastapi_claude_voice_age.App.{State, failed, startup, health, request_id_of, respond}
use fastapi_claude_voice_age.App.Logging.{LogConfig, is_logged}
use fastapi_claude_voice_age.App.Answers.{IsTold, respond-IsTold}
use fastapi_claude_voice_age.App.Health.{healthy, health-startup}

abbrev no_engine : Engine
no_engine = record { engine = none; sessionmaker = none }

abbrev off : State
off = record { logging = none; engine = no_engine; call_gate = none; settings = none }

no_database :
    factory no_engine ≡ raise (runtime_error "DB engine not initialized; call init_engine() first.")
unfolding factory
no_database = refl

disposed :
    dispose_engine (ok tt) (record { engine = some "a"; sessionmaker = some "a" })
    ≡ (no_engine, ok tt)
unfolding dispose_engine
disposed = refl

own_id : request_id_of (some "") "3f2a" ≡ "3f2a"
unfolding request_id_of
own_id = refl

respond-IsTold_example :
    IsTold
      (some "abc")
      "3f2a"
      (failed (runtime_error "secret"))
      (respond (some "abc") "3f2a" (failed (runtime_error "secret")))
    × ((e e' : Exn)
        → respond (some "abc") "3f2a" (failed e) ≡ respond (some "abc") "3f2a" (failed e'))
respond-IsTold_example = respond-IsTold (some "abc") "3f2a" (failed (runtime_error "secret"))

abbrev local_url : String → ParseResult
local_url s = record { scheme = "http"; netloc = "localhost:8000" }

abbrev quoted : String → String
quoted s = s

defaults_valid : validate local_url quoted default_settings ≡ ok default_settings
unfolding validate fields_ok validate_public_base_url require_secrets_in_production is_production
defaults_valid = refl

abbrev two_calls : List Event
two_calls = session_opens ∷ stream_arrives 1 ∷ []

-- An engine for URLs of this driver alone.
abbrev asyncpg_only : String → Result (Unit {0})
asyncpg_only url =
    if url == "postgresql+asyncpg://voice:voice@db:5432/voice"
    then ok tt
    else raise (other "InvalidRequestError")

health-startup_example :
    (st : State) × (g : CallGate) × (startup asyncpg_only default_settings off ≡ ok st)
    × (st.call_gate ≡ some g)
    × ((logging : LogConfig) × (st.logging ≡ some logging) × (is_logged logging 40 ≡ true))
    × (factory st.engine ≡ ok "postgresql+asyncpg://voice:voice@db:5432/voice")
    × (let now = run (start g) two_calls in
        (health "0.1.0" (record st { call_gate = some now.gate })
          ≡ healthy "0.1.0" (now.sessions + now.streams) 10)
        × (now.sessions + now.streams ≤ 10)
        × (10 ≤ 500))
health-startup_example =
    health-startup "0.1.0" local_url quoted default_settings default_settings asyncpg_only off
      two_calls defaults_valid refl
