-- ===== src/Migrations/Env.antt =====
-- migrations/env.py: which database the migrations go to, and what becomes of it. A text is given by
-- its codes. `set` and `get` are those of Python's `ConfigParser`, which alembic's `set_main_option`,
-- `get_main_option` and `get_section` call; `variable` is what a `%(name)s` stands for, `connect` and
-- `migrate` are what the engine and `context.run_migrations` do.
pub mod Target
mod Tests
use fastapi_claude_voice_age.Base.{
  ℕ, zero, suc, Bool, true, false, ◌&&◌, eqb, Option, none, some, List, [], ◌∷◌, ◌++◌, length,
  if◌then◌else◌,
}
use fastapi_claude_voice_age.Python.{Exn, value_error, other, Result, ok, raise, ◌>>=◌}

-- `%`, `(`, `)` and `s`
abbrev pub percent : ℕ
percent = 37

abbrev opening : ℕ
opening = 40

abbrev closing : ℕ
closing = 41

abbrev letter_s : ℕ
letter_s = 115

abbrev starts_with : ℕ → List ℕ → Bool
starts_with c [] = false
starts_with c (d ∷ ds) = eqb d c

abbrev tail : List ℕ → List ℕ
tail [] = []
tail (c ∷ cs) = cs

-- `value.replace("%%", "")`
unfoldable pub without_doubles : List ℕ → List ℕ
without_doubles [] = []
without_doubles (a ∷ []) = a ∷ []
without_doubles (a ∷ b ∷ cs) = elim (eqb a percent && eqb b percent) [
  | true ↦ without_doubles cs
  | false ↦ a ∷ without_doubles (b ∷ cs)
]

-- The rest of a name and what follows its `)s`.
name_end : List ℕ → Option (List ℕ × List ℕ)
name_end [] = none
name_end (c ∷ cs) =
    if eqb c closing
    then (if starts_with letter_s cs then some ([], tail cs) else none)
    else elim (name_end cs) [ none ↦ none | some (name, rest) ↦ some (c ∷ name, rest) ]

-- The name after `%(`, which is not empty.
unfoldable pub name_at : List ℕ → Option (List ℕ × List ℕ)
unfolding name_end
name_at cs = if starts_with closing cs then none else name_end cs

-- Whether a `%` is left once each `%(name)s` is taken out. Each turn takes a character at least, so
-- that the length is enough fuel.
unfoldable pub is_stray : ℕ → List ℕ → Bool
unfolding name_at
is_stray zero cs = false
is_stray (suc n) [] = false
is_stray (suc n) (c ∷ cs) =
    if eqb c percent
    then (if starts_with opening cs
        then elim (name_at (tail cs)) [ none ↦ true | some (name, rest) ↦ is_stray n rest ]
        else true)
    else is_stray n cs

-- `set_main_option`
unfoldable pub set : List ℕ → Result (List ℕ)
unfolding without_doubles is_stray
set value =
    let left = without_doubles value in
    if is_stray (length left) left
    then raise (value_error "invalid interpolation syntax")
    else ok value

module _ (variable : List ℕ → Result (List ℕ)) where
  -- `get_main_option`, with as much fuel.
  unfoldable pub interpolated : ℕ → List ℕ → Result (List ℕ)
  unfolding name_at
  interpolated zero cs = ok []
  interpolated (suc n) [] = ok []
  interpolated (suc n) (c ∷ cs) =
      if eqb c percent
      then (if starts_with percent cs
          then (interpolated n (tail cs) >>= λ more. ok (percent ∷ more))
          else if starts_with opening cs
          then elim (name_at (tail cs)) [
            | none ↦ raise (other "InterpolationSyntaxError")
            | some (name, rest) ↦ do
              value ← variable name
              more ← interpolated n rest
              ok (value ++ more)
          ]
          else raise (other "InterpolationSyntaxError"))
      else (interpolated n cs >>= λ more. ok (c ∷ more))

  unfoldable pub get : List ℕ → Result (List ℕ)
  unfolding interpolated
  get raw = interpolated (length raw) raw

-- `if db_url := os.environ.get("DATABASE_URL")`, before the option of alembic.ini, whose other options
-- are well formed.
unfoldable pub configured : Option (List ℕ) → List ℕ → Result (List ℕ)
unfolding set
configured none ini = ok ini
configured (some []) ini = ok ini
configured (some (c ∷ cs)) ini = set (c ∷ cs)

-- The database, whether the engine was disposed of, and how the script ended.
pub record Done (D : Type 0) : Type 0 where
  pub db : D
  pub disposed : Bool
  pub result : Result (Unit {0})

abbrev pub ended_with : {D : Type 0} → Exn → D → Done D
ended_with e db = record { db = db; disposed = false; result = raise e }

module _ {D : Type 0} (variable : List ℕ → Result (List ℕ))
    (emit connect : List ℕ → Result (Unit {0})) (migrate : List ℕ → D → Result D) where
  -- The migrations are written out as SQL.
  unfoldable pub run_migrations_offline : Result (List ℕ) → D → Done D
  run_migrations_offline url db = record {
    db = db;
    disposed = false;
    result = (url >>= λ u. emit u);
  }

  -- An exception inside the transaction rolls it back, and leaves before `dispose`.
  unfoldable pub run_async_migrations : Result (List ℕ) → D → Done D
  run_async_migrations (raise e) db = ended_with e db
  run_async_migrations (ok url) db = elim (connect url >>= λ _. migrate url db) [
    | ok db' ↦ record { db = db'; disposed = true; result = ok tt }
    | raise e ↦ ended_with e db
  ]

  unfoldable pub run_on : (is_offline_mode : Bool) → Result (List ℕ) → D → Done D
  unfolding run_migrations_offline run_async_migrations
  run_on is_offline_mode url db =
      if is_offline_mode then run_migrations_offline url db else run_async_migrations url db

  -- The end of the file, with the option as it was set.
  unfoldable pub go_on : (is_offline_mode : Bool) → Result (List ℕ) → D → Done D
  unfolding run_on get
  go_on is_offline_mode (ok raw) db = run_on is_offline_mode (get variable raw) db
  go_on is_offline_mode (raise e) db = ended_with e db

  -- The whole file, with what DATABASE_URL and alembic.ini say.
  unfoldable pub script : Bool → Option (List ℕ) → List ℕ → D → Done D
  unfolding configured go_on
  script is_offline_mode database_url ini db =
      go_on is_offline_mode (configured database_url ini) db
