-- ===== src/Python.antt =====
-- The values and exceptions of Python that the program's parts hand to one another: what JSON texts
-- decode to, `dict` operations on them, exceptions with their texts, and white space.
pub mod Numbers
pub mod Objects
pub mod Base64
use Prim.Native.String.{String}
use fastapi_claude_voice_age.Base.{
  ◌≡◌, refl, ◌⊎◌, inl, inr, ℕ, ◌<>◌, Bool, true, false, ◌&&◌, ◌||◌, Option, none, some, List, [],
  ◌∷◌, eqb, leb, ◌==◌, if◌then◌else◌,
}
use fastapi_claude_voice_age.Base.Int.{ℤ}
use fastapi_claude_voice_age.Base.Text.{codes}
use Numbers.{Float}

-- What `json.loads` returns, and what a tool takes and returns.
mutual
  pub data Json : Type 0 where
    null : Json
    bool : Bool → Json
    int : ℤ → Json
    float : Float → Json
    str : String → Json
    arr : Items → Json
    obj : Fields → Json

  pub data Items : Type 0 where
    nil : Items
    cons : Json → Items → Items

  pub data Fields : Type 0 where
    end : Fields
    field : String → Json → Fields → Fields

-- The exceptions that the code raises or meets, each with its text; `other` is one of a library.
pub data Exn : Type 0 where
  key_error type_error value_error overflow_error attribute_error runtime_error other : String → Exn

-- `str(exc)`. A KeyError shows its key as `repr` does; the keys of this program need no escapes.
unfoldable pub str_exn : Exn → String
str_exn (key_error k) = "'" <> (k <> "'")
str_exn (type_error m) = m
str_exn (value_error m) = m
str_exn (overflow_error m) = m
str_exn (attribute_error m) = m
str_exn (runtime_error m) = m
str_exn (other m) = m

pub data Result {ℓ} (A : Type ℓ) : Type ℓ where
  ok : A → Result A
  raise : Exn → Result A

-- A split on a computed result that keeps the equation.
pub Result-cases {ℓ} :
    {A : Type ℓ} (r : Result A) → ((a : A) × (r ≡ ok a)) ⊎ ((x : Exn) × (r ≡ raise x))
Result-cases (ok a) = inl (a, refl)
Result-cases (raise x) = inr (x, refl)

infixl 5 ◌>>=◌ ◌>>◌
abbrev pub ◌>>=◌ {ℓ κ} : {A : Type ℓ} {B : Type κ} → Result A → (A → Result B) → Result B
ok a >>= f = f a
raise e >>= f = raise e

abbrev pub ◌>>◌ {ℓ} : {B : Type ℓ} → Result (Unit {0}) → Result B → Result B
m >> k = m >>= λ _. k

-- `d.get(k)`
unfoldable pub get : String → Fields → Option Json
get k end = none
get k (field j v d) = if j == k then some v else get k d

-- `d.get(k, default)`
unfoldable pub get_or : String → Fields → Json → Json
unfolding get
get_or k d default = elim (get k d) [ some v ↦ v | none ↦ default ]

-- `d[k]`
unfoldable pub item : String → Fields → Result Json
unfolding get
item k d = elim (get k d) [ some v ↦ ok v | none ↦ raise (key_error k) ]

-- `d[k] = v`, and `{**d, k: v}`
unfoldable pub put : String → Json → Fields → Fields
put k v end = field k v end
put k v (field j w d) = if j == k then field j v d else field j w (put k v d)

-- The characters that `str.strip` takes away.
unfoldable pub is_space : ℕ → Bool
is_space c =
    (leb 9 c && leb c 13)
    || (leb 28 c && leb c 32)
    || eqb c 133
    || eqb c 160
    || eqb c 5760
    || (leb 8192 c && leb c 8202)
    || eqb c 8232
    || eqb c 8233
    || eqb c 8239
    || eqb c 8287
    || eqb c 12288

unfoldable pub all_spaces : List ℕ → Bool
unfolding is_space
all_spaces [] = true
all_spaces (c ∷ cs) = is_space c && all_spaces cs

-- `not s.strip()`
unfoldable pub is_blank : String → Bool
unfolding all_spaces
is_blank s = all_spaces (codes s)
