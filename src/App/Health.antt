-- ===== src/App/Health.antt =====
-- The application between its start and its end.
use fastapi_claude_voice_age.Base.{
  ◌≡◌, true, refl, ap, ◌∙◌, subst, ℕ, ◌+◌, ◌≤◌, String, none, some, List, arith, inl, inr,
  Option-cases,
}
use fastapi_claude_voice_age.Base.Int.{pos}
use fastapi_claude_voice_age.Python.{int, str, obj, field, end, Result, ok}
use fastapi_claude_voice_age.Gate.{CallGate, init}
use fastapi_claude_voice_age.Gate.System.{Event, run, start}
use fastapi_claude_voice_age.Gate.Accounting.{run-permits, run-max}
use fastapi_claude_voice_age.Settings.{Settings, ParseResult, validate}
use fastapi_claude_voice_age.Settings.Validation.{is_valid, validate-is_valid, valid_cap}
use fastapi_claude_voice_age.Persistence.Engine.{init_engine, factory}
use fastapi_claude_voice_age.App.Logging.{LogConfig, configure_logging, is_logged, errors_logged}
use fastapi_claude_voice_age.App.{State, Outcome, responded, call_gate_of, startup, health}

-- What /health answers for some calls and their cap.
abbrev pub healthy : (version : String) (active max : ℕ) → Outcome
healthy version active max = responded (record {
  status_code = 200;
  body = obj (
      field "status" (str "ok") (
        field "version" (str version) (
          field "calls" (obj (field "active" (int (pos active)) (field "max" (int (pos max)) end)))
            end)));
  request_id = none;
})

gate_made : (n : ℕ) → 1 ≤ n → (g : CallGate) × (init n ≡ some g)
unfolding init
gate_made n h = elim (Option-cases (init n)) [
  | inl e ↦ absurd (ground (arith, e, h))
  | inr (g, e) ↦ (g, e)
]

call_gate_of-init : (n : ℕ) (g : CallGate) → init n ≡ some g → call_gate_of n ≡ ok g
unfolding call_gate_of
call_gate_of-init n g h = rw (h, call_gate_of) refl

startup-init :
    (create_async_engine : String → Result (Unit {0})) (t : Settings) (before : State)
    (g : CallGate)
    → create_async_engine t.database_url ≡ ok tt
    → init t.max_concurrent_calls ≡ some g
    → startup create_async_engine t before
      ≡ ok (record {
        logging = some (configure_logging t);
        engine = record { engine = some t.database_url; sessionmaker = some t.database_url };
        call_gate = some g;
        settings = some t;
      })
unfolding startup init_engine
startup-init create_async_engine t before g made h =
    rw (made, call_gate_of-init t.max_concurrent_calls g h, startup) refl

-- With settings that were let through, and a database URL for which SQLAlchemy makes an engine,
-- `lifespan` starts without an error, whatever was before. Then errors are logged, and the sessions
-- are made for the database URL of the settings; and after any events of calls, /health says how many of them hold a permit, and the cap of the settings, with no more calls
-- than the cap, and no cap above 500.
pub health-startup :
    (version : String) (urlparse : String → ParseResult) (repr : String → String) (s t : Settings)
    (create_async_engine : String → Result (Unit {0})) (before : State) (es : List Event)
    → validate urlparse repr s ≡ ok t
    → create_async_engine t.database_url ≡ ok tt
    → (st : State) × (g : CallGate) × (startup create_async_engine t before ≡ ok st)
      × (st.call_gate ≡ some g)
      × ((logging : LogConfig) × (st.logging ≡ some logging) × (is_logged logging 40 ≡ true))
      × (factory st.engine ≡ ok t.database_url)
      × (let now = run (start g) es in
          (health version (record st { call_gate = some now.gate })
            ≡ healthy version (now.sessions + now.streams) t.max_concurrent_calls)
          × (now.sessions + now.streams ≤ t.max_concurrent_calls)
          × (t.max_concurrent_calls ≤ 500))
unfolding init_engine factory health
health-startup version urlparse repr s t create_async_engine before es h reachable =
    let (same, valid) = (validate-is_valid urlparse repr s t).0 h in
    let valid_t = ap (is_valid urlparse) same ∙ valid in
    let (low, high) = valid_cap urlparse t valid_t in
    let (g, made) = gate_made t.max_concurrent_calls low in
    let (counted, capped, permits) = run-permits t.max_concurrent_calls made es in
    let cap = run-max t.max_concurrent_calls made es in
    (
      record {
        logging = some (configure_logging t);
        engine = record { engine = some t.database_url; sessionmaker = some t.database_url };
        call_gate = some g;
        settings = some t;
      },
      g,
      startup-init create_async_engine t before g reachable made,
      refl,
      (configure_logging t, refl, errors_logged urlparse t valid_t),
      refl,
      (
        ap (λ a. healthy version a (run (start g) es).gate.max) counted
            ∙ ap (healthy version ((run (start g) es).sessions + (run (start g) es).streams)) cap,
        subst (λ a. a ≤ t.max_concurrent_calls) counted capped,
        high,
      ),
    )
