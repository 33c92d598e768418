-- ===== src/Migrations/Env/Target.antt =====
-- Which database the script reaches, and for which DATABASE_URL it reaches none.
use fastapi_claude_voice_age.Base.{
  ◌≡◌, refl, ap, ◌∙◌, arith, ℕ, zero, suc, Bool, true, false, ◌||◌, eqb, Option, none, some, List,
  [], ◌∷◌, ◌++◌, length,
}
use fastapi_claude_voice_age.Python.{value_error, Result, ok, raise}
use fastapi_claude_voice_age.Migrations.Env.{
  percent, opening, starts_with, without_doubles, is_stray, set, interpolated, get, configured,
  Done, ended_with, run_on, go_on, script,
}

abbrev pub has_percent : List ℕ → Bool
has_percent [] = false
has_percent (c ∷ cs) = eqb c percent || has_percent cs

without_doubles-other :
    (a : ℕ) (cs : List ℕ)
    → eqb a percent ≡ false
    → without_doubles (a ∷ cs) ≡ a ∷ without_doubles cs
unfolding without_doubles
without_doubles-other a [] h = refl
without_doubles-other a (b ∷ cs) h = ground (arith, h)

-- The first character of a text without `%`, and the others.
first_plain : (c : ℕ) (cs : List ℕ) → has_percent (c ∷ cs) ≡ false → eqb c percent ≡ false
first_plain c cs h = ground (arith, h)

rest_plain : (c : ℕ) (cs : List ℕ) → has_percent (c ∷ cs) ≡ false → has_percent cs ≡ false
rest_plain c cs h = ground (arith, h)

without_doubles-plain : (cs : List ℕ) → has_percent cs ≡ false → without_doubles cs ≡ cs
unfolding without_doubles
without_doubles-plain [] h = refl
without_doubles-plain (c ∷ cs) h =
    without_doubles-other c cs (first_plain c cs h)
    ∙ ap (λ t. c ∷ t) (without_doubles-plain cs (rest_plain c cs h))

without_doubles-lone :
    (xs ys : List ℕ)
    → has_percent xs ≡ false
    → has_percent ys ≡ false
    → without_doubles (xs ++ (percent ∷ ys)) ≡ xs ++ (percent ∷ ys)
unfolding without_doubles
without_doubles-lone [] [] h k = refl
without_doubles-lone [] (y ∷ ys) h k =
    ground (arith, first_plain y ys k, without_doubles-plain (y ∷ ys) k)
without_doubles-lone (x ∷ xs) ys h k =
    without_doubles-other x (xs ++ (percent ∷ ys)) (first_plain x xs h)
    ∙ ap (λ t. x ∷ t) (without_doubles-lone xs ys (rest_plain x xs h) k)

is_stray-plain : (n : ℕ) (cs : List ℕ) → has_percent cs ≡ false → is_stray n cs ≡ false
unfolding is_stray
is_stray-plain zero cs h = refl
is_stray-plain (suc n) [] h = refl
is_stray-plain (suc n) (c ∷ cs) h =
    rw (first_plain c cs h) (is_stray-plain n cs (rest_plain c cs h))

is_stray-lone :
    (xs ys : List ℕ)
    → has_percent xs ≡ false
    → starts_with opening ys ≡ false
    → is_stray (length (xs ++ (percent ∷ ys))) (xs ++ (percent ∷ ys)) ≡ true
unfolding is_stray
is_stray-lone [] ys h k = rw k refl
is_stray-lone (x ∷ xs) ys h k = rw (first_plain x xs h) (is_stray-lone xs ys (rest_plain x xs h) k)

interpolated-plain :
    (variable : List ℕ → Result (List ℕ)) (cs : List ℕ)
    → has_percent cs ≡ false
    → interpolated variable (length cs) cs ≡ ok cs
unfolding interpolated
interpolated-plain variable [] h = refl
interpolated-plain variable (c ∷ cs) h =
    rw (first_plain c cs h, interpolated-plain variable cs (rest_plain c cs h)) refl

get-plain :
    (variable : List ℕ → Result (List ℕ)) (cs : List ℕ)
    → has_percent cs ≡ false
    → get variable cs ≡ ok cs
unfolding get
get-plain variable cs h = interpolated-plain variable cs h

set-plain : (cs : List ℕ) → has_percent cs ≡ false → set cs ≡ ok cs
unfolding set
set-plain cs h = rw (set, without_doubles-plain cs h, is_stray-plain (length cs) cs h) refl

set-lone :
    (xs ys : List ℕ)
    → has_percent xs ≡ false
    → has_percent ys ≡ false
    → starts_with opening ys ≡ false
    → set (xs ++ (percent ∷ ys)) ≡ raise (value_error "invalid interpolation syntax")
unfolding set
set-lone xs ys h k l = rw (set, without_doubles-lone xs ys h k, is_stray-lone xs ys h l) refl

configured-lone :
    (xs ys ini : List ℕ)
    → has_percent xs ≡ false
    → has_percent ys ≡ false
    → starts_with opening ys ≡ false
    → configured (some (xs ++ (percent ∷ ys))) ini
      ≡ raise (value_error "invalid interpolation syntax")
unfolding configured
configured-lone [] ys ini h k l = set-lone [] ys h k l
configured-lone (x ∷ xs) ys ini h k l = set-lone (x ∷ xs) ys h k l

module _ {D : Type 0} (variable : List ℕ → Result (List ℕ))
    (emit connect : List ℕ → Result (Unit {0})) (migrate : List ℕ → D → Result D)
    (is_offline_mode : Bool) (ini : List ℕ) (db : D) where
  -- The script on a URL, and with a DATABASE_URL.
  abbrev pub on : List ℕ → Done D
  on url = run_on variable emit connect migrate is_offline_mode (ok url) db

  abbrev pub result : Option (List ℕ) → Done D
  result database_url = script variable emit connect migrate is_offline_mode database_url ini db

  -- If DATABASE_URL is set, not empty and has no percent sign, then the script runs on that URL as it
  -- stands, whatever alembic.ini says; and if it is not set or empty then on the URL of alembic.ini,
  -- where that has none.
  pub script-run_on :
      (c : ℕ) (cs : List ℕ)
      → has_percent (c ∷ cs) ≡ false
      → has_percent ini ≡ false
      → (result (some (c ∷ cs)) ≡ on (c ∷ cs))
        × (result none ≡ on ini)
        × (result (some []) ≡ on ini)
  unfolding script configured go_on
  script-run_on c cs h k =
      let found = get-plain variable ini k in
      (
        ap (λ r. go_on variable emit connect migrate is_offline_mode r db) (set-plain (c ∷ cs) h)
            ∙ ap (λ url. run_on variable emit connect migrate is_offline_mode url db)
                (get-plain variable (c ∷ cs) h),
        ap (λ url. run_on variable emit connect migrate is_offline_mode url db) found,
        ap (λ url. run_on variable emit connect migrate is_offline_mode url db) found,
      )

  -- If DATABASE_URL has one percent sign, and no `(` after it, as where a password is percent-encoded,
  -- then the script ends with a ValueError before it reaches a database, which stays as it was.
  pub script_lone_percent :
      (xs ys : List ℕ)
      → has_percent xs ≡ false
      → has_percent ys ≡ false
      → starts_with opening ys ≡ false
      → result (some (xs ++ (percent ∷ ys)))
        ≡ ended_with (value_error "invalid interpolation syntax") db
  unfolding script go_on
  script_lone_percent xs ys h k l =
      ap (λ r. go_on variable emit connect migrate is_offline_mode r db)
        (configured-lone xs ys ini h k l)
