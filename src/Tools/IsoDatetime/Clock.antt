-- ===== src/Tools/IsoDatetime/Clock.antt =====
-- The time of day after the separator, and its offset.
use fastapi_claude_voice_age.Base.{
  ℕ, zero, suc, ◌+◌, ◌-◌, ◌*◌, ◌^◌, Bool, true, false, not, ◌&&◌, ◌||◌, eqb, leb, if◌then◌else◌,
  Option, none, some, List, [], ◌∷◌, length,
}
use fastapi_claude_voice_age.Tools.Texts.{is_digit}
use fastapi_claude_voice_age.Tools.IsoDate.{digits}

-- The numbers of a time of day or an offset, and whether something stands after them.
record Clock : Type 0 where
  values : List ℕ
  pub microsecond : ℕ
  more : Bool

with_value : ℕ → Option Clock → Option Clock
with_value v none = none
with_value v (some k) = some (record k { values = v ∷ k.values })

skip_digits : List ℕ → List ℕ
unfolding is_digit
skip_digits [] = []
skip_digits (c ∷ cs) = let rest = skip_digits cs in if is_digit c then rest else c ∷ cs

-- Something stands after `cs`, which `after` follows, 0 at the end of the text.
is_followed : List ℕ → ℕ → Bool
is_followed [] after = not (eqb after 0)
is_followed (c ∷ cs) after = true

-- Up to six digits count.
fraction : List ℕ → ℕ → Option Clock
unfolding digits skip_digits is_followed
fraction cs after =
    let n : ℕ = if leb 6 (length cs) then 6 else length cs in
    elim (digits n 0 cs) [
      | none ↦ none
      | some (v, ds) ↦ some (record {
        values = [];
        microsecond = v * 10 ^ (6 - n);
        more = is_followed (skip_digits ds) after;
      })
    ]

-- What follows a number: its separator `c` and then `cs`, where `rest` reads what is left.
after_value :
    (rest : Bool → List ℕ → Option Clock) (is_first has_separator : Bool) (v : ℕ)
    → List ℕ
    → ℕ
    → Option Clock
unfolding fraction with_value
after_value rest is_first has_separator v [] after =
    some (record { values = v ∷ []; microsecond = 0; more = not (eqb after 0) })
after_value rest is_first has_separator v (c ∷ []) after =
    some (record { values = v ∷ []; microsecond = 0; more = true })
after_value rest is_first has_separator v (c ∷ d ∷ cs) after =
    let sep : Bool = if is_first then eqb c 58 else has_separator in
    with_value v (
      if sep && eqb c 58
      then rest sep (d ∷ cs)
      else if eqb c 46 || eqb c 44
      then fraction (d ∷ cs) after
      else if not sep
      then rest sep (c ∷ d ∷ cs)
      else none)

-- HH[:MM[:SS]] or HH[MM[SS]], with a fraction after any of them. The first separator tells which.
clock : ℕ → (is_first has_separator : Bool) → List ℕ → (after : ℕ) → Option Clock
unfolding fraction digits after_value
clock zero is_first has_separator cs after = fraction cs after
clock (suc n) is_first has_separator cs after = elim (digits 2 0 cs) [
  | none ↦ none
  | some (v, ds) ↦
      after_value (λ sep es. clock n false sep es after) is_first has_separator v ds after
]

-- The part before `+`, `-` or `Z`, and the rest from there.
split_offset : List ℕ → List ℕ × List ℕ
split_offset [] = ([], [])
split_offset (c ∷ cs) =
    let (before, rest) = split_offset cs in
    if eqb c 43 || eqb c 45 || eqb c 90 then ([], c ∷ cs) else (c ∷ before, rest)

-- The first character, 0 if there is none.
first : List ℕ → ℕ
first [] = 0
first (c ∷ cs) = c

-- A time of day, and how far it is from UTC.
pub record Time : Type 0 where
  pub hour : ℕ
  pub minute : ℕ
  pub second : ℕ
  pub microsecond : ℕ

pub record Offset : Type 0 where
  pub behind : Bool
  pub seconds : ℕ
  pub microseconds : ℕ

abbrev nth : ℕ → List ℕ → ℕ
nth n [] = 0
nth zero (v ∷ vs) = v
nth (suc n) (v ∷ vs) = nth n vs

time_of : Clock → Time
time_of k = record {
  hour = nth 0 k.values;
  minute = nth 1 k.values;
  second = nth 2 k.values;
  microsecond = k.microsecond;
}

-- An offset of no seconds is UTC, whatever its sign.
offset_of : Bool → Clock → Option Offset
offset_of behind k =
    let seconds : ℕ = nth 0 k.values * 3600 + nth 1 k.values * 60 + nth 2 k.values in
    if k.more
    then none
    else some (record {
      behind = behind && not (eqb seconds 0 && eqb k.microsecond 0);
      seconds = seconds;
      microseconds = k.microsecond;
    })

-- A text without an offset, whose time must end it.
naive : Clock → Option (Time × Option Offset)
unfolding time_of
naive k = if k.more then none else some (time_of k, none)

aware : Time → Option Offset → Option (Time × Option Offset)
aware t none = none
aware t (some o) = some (t, some o)

utc : Offset
utc = record { behind = false; seconds = 0; microseconds = 0 }

offset_after : Bool → List ℕ → Option Offset
unfolding clock offset_of
offset_after behind cs = elim (clock 3 true true cs 0) [ none ↦ none | some k ↦ offset_of behind k ]

-- The time, with what stands from its offset on.
with_offset : Clock → List ℕ → Option (Time × Option Offset)
unfolding naive aware time_of offset_after utc
with_offset k [] = naive k
with_offset k (c ∷ cs) =
    aware (time_of k)
      (if eqb c 90 then elim cs [ [] ↦ some utc | d ∷ ds ↦ none ] else offset_after (eqb c 45) cs)

unfoldable pub time_in : List ℕ → Option (Time × Option Offset)
unfolding split_offset clock with_offset first
time_in cs =
    let (before, rest) = split_offset cs in
    elim (clock 3 true true before (first rest)) [ none ↦ none | some k ↦ with_offset k rest ]
