-- ===== src/App/Logging.antt =====
-- app/logging.py: which log lines come out, and in which form. Of `str.upper` only ASCII is modelled,
-- and of the module `logging` its levels: the settings let no other names through.
use fastapi_claude_voice_age.Base.{
  ℕ, ◌-◌, String, Bool, true, false, ◌&&◌, leb, eqb, List, [], ◌∷◌, map, ◌==◌, if◌then◌else◌, ◌≡◌,
  refl,
}
use fastapi_claude_voice_age.Base.Text.{codes}
use fastapi_claude_voice_age.Settings.{Settings, ParseResult}
use fastapi_claude_voice_age.Settings.Validation.{is_valid, valid_log_level}

pub data Renderer : Type 0 where
  console_renderer json_renderer : Renderer

-- What `structlog.configure` gets that the settings decide: the least level, and the last processor.
pub record LogConfig : Type 0 where
  pub level : ℕ
  pub renderer : Renderer

-- logging.INFO
abbrev info : ℕ
info = 20

upper : List ℕ → List ℕ
upper s = map (λ c. if leb 97 c && leb c 122 then c - 32 else c) s

is_same : List ℕ → List ℕ → Bool
is_same [] [] = true
is_same (c ∷ cs) (d ∷ ds) = eqb c d && is_same cs ds
is_same _ _ = false

record Level : Type 0 where
  name : String
  number : ℕ

abbrev level : String → ℕ → Level
level name number = record { name = name; number = number }

-- `getattr(logging, name, logging.INFO)`
number_of : List Level → List ℕ → ℕ
unfolding is_same
number_of [] name = info
number_of (l ∷ ls) name = if is_same (codes l.name) name then l.number else number_of ls name

abbrev levels : List Level
levels =
    level "CRITICAL" 50
    ∷ level "FATAL" 50
    ∷ level "ERROR" 40
    ∷ level "WARNING" 30
    ∷ level "WARN" 30
    ∷ level "INFO" info
    ∷ level "DEBUG" 10
    ∷ level "NOTSET" 0
    ∷ []

unfoldable pub configure_logging : Settings → LogConfig
unfolding number_of upper
configure_logging settings = record {
  level = number_of levels (upper (codes settings.log_level));
  renderer = if settings.env == "development" then console_renderer else json_renderer;
}

-- A filtering logger drops what is below its level.
abbrev pub is_logged : LogConfig → ℕ → Bool
is_logged l n = leb l.level n

-- Valid settings let no level through that is above that of errors.
pub errors_logged :
    (urlparse : String → ParseResult) (s : Settings)
    → is_valid urlparse s ≡ true
    → is_logged (configure_logging s) 40 ≡ true
unfolding configure_logging number_of upper is_same
errors_logged urlparse s v =
    valid_log_level urlparse s (λ name. leb (number_of levels (upper (codes name))) 40) v
      (refl, refl, refl, refl)
