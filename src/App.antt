-- ===== src/App.antt =====
-- app/main.py and app/middleware.py: start and end of the application, its health, and what becomes of
-- a request whatever its handler does. FastAPI runs the handlers of `HTTPException` and of invalid
-- requests inside the middleware, and the handler of `Exception` around it.
pub mod Logging
pub mod Health
pub mod Answers
mod Tests
use fastapi_claude_voice_age.Base.{ℕ, String, Option, none, some, ◌==◌, if◌then◌else◌}
use fastapi_claude_voice_age.Base.Int.{pos}
use fastapi_claude_voice_age.Python.{
  Json, int, str, arr, obj, Items, field, end, Exn, attribute_error, value_error, Result, ok, raise,
  ◌>>=◌,
}
use fastapi_claude_voice_age.Gate.{CallGate, init}
use fastapi_claude_voice_age.Settings.{Settings}
use Logging.{LogConfig, configure_logging}
use fastapi_claude_voice_age.Persistence.Engine.{Engine, init_engine, dispose_engine}

-- How logging is configured, the globals of db.py and `app.state`.
pub record State : Type 0 where
  pub logging : Option LogConfig
  pub engine : Engine
  pub call_gate : Option CallGate
  pub settings : Option Settings

unfoldable pub call_gate_of : ℕ → Result CallGate
call_gate_of n = elim (init n) [
  | none ↦ raise (value_error "max_concurrent must be >= 1")
  | some g ↦ ok g
]

-- `lifespan` up to its `yield`; an exception here ends the process.
unfoldable pub startup : (String → Result (Unit {0})) → Settings → State → Result State
unfolding call_gate_of init_engine configure_logging
startup create_async_engine settings s = do
  engine ← init_engine create_async_engine settings.database_url s.engine
  gate ← call_gate_of settings.max_concurrent_calls
  ok (record {
    logging = some (configure_logging settings);
    engine = engine;
    call_gate = some gate;
    settings = some settings;
  })

-- Its `finally`, with what `dispose` gave.
unfoldable pub shutdown : (disposed : Result (Unit {0})) → State → State × Result (Unit {0})
unfolding dispose_engine
shutdown disposed s =
    let (engine, r) = dispose_engine disposed s.engine in (record s { engine = engine }, r)

-- Of the headers only X-Request-ID is kept.
pub record Response : Type 0 where
  pub status_code : ℕ
  pub body : Json
  pub request_id : Option String

unfoldable pub error_body : ℕ → Json → Response
error_body status_code detail = record {
  status_code = status_code;
  body = obj (
      field "error" (obj (field "status" (int (pos status_code)) (field "detail" detail end))) end);
  request_id = none;
}

-- `http_exception_handler`
unfoldable pub http_exception_handler : ℕ → Json → Response
unfolding error_body
http_exception_handler status_code detail = error_body status_code detail

-- `validation_handler`
unfoldable pub validation_handler : Items → Response
validation_handler errors = record {
  status_code = 422;
  body = obj (
      field "error"
        (obj (
          field "status" (int (pos 422))
            (field "detail" (str "validation_error") (field "errors" (arr errors) end))))
        end);
  request_id = none;
}

-- `unhandled_exception_handler`; the exception goes to the log alone.
unfoldable pub unhandled_exception_handler : Exn → Response
unfolding error_body
unhandled_exception_handler exc = error_body 500 (str "internal_error")

-- What the handler of a route does.
pub data Outcome : Type 0 where
  responded : Response → Outcome
  http_exception : (status_code : ℕ) (detail : Json) → Outcome
  invalid : (errors : Items) → Outcome
  failed : Exn → Outcome

unfoldable pub call_next : Outcome → Result Response
unfolding http_exception_handler validation_handler
call_next (responded r) = ok r
call_next (http_exception status_code detail) = ok (http_exception_handler status_code detail)
call_next (invalid errors) = ok (validation_handler errors)
call_next (failed e) = raise e

-- The client's id if it is not empty, or else a new one.
unfoldable pub request_id_of : (header : Option String) (generated : String) → String
request_id_of header generated = elim header [
  | none ↦ generated
  | some id ↦ if id == "" then generated else id
]

-- `dispatch` of the middleware
unfoldable pub dispatch : Option String → String → Outcome → Result Response
unfolding request_id_of call_next
dispatch header generated o = do
  response ← call_next o
  ok (record response { request_id = some (request_id_of header generated) })

unfoldable pub respond : Option String → String → Outcome → Response
unfolding dispatch unhandled_exception_handler
respond header generated o = elim (dispatch header generated o) [
  | ok r ↦ r
  | raise e ↦ unhandled_exception_handler e
]

module _ (version : String) where
  unfoldable pub health : State → Outcome
  health s = elim s.call_gate [
    | none ↦ failed (attribute_error "'State' object has no attribute 'call_gate'")
    | some gate ↦ responded (record {
      status_code = 200;
      body = obj (
          field "status" (str "ok") (
            field "version" (str version) (
              field "calls"
                (obj
                  (field "active" (int (pos gate.active)) (field "max" (int (pos gate.max)) end)))
                end)));
      request_id = none;
    })
  ]

  unfoldable pub root : Response
  root = record {
    status_code = 200;
    body =
        obj
          (field "service" (str "fastapi-claude-voice-agent") (field "version" (str version) end));
    request_id = none;
  }
