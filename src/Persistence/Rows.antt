-- ===== src/Persistence/Rows.antt =====
-- What the stored rows of a call are after its operations.
use fastapi_claude_voice_age.Base.{
  ◌≡◌, refl, ap, subst, ◌∙◌, arith, ℕ, suc, ◌<◌, String, Bool, true, false, ◌==◌, eq_iff,
  if◌then◌else◌, Option, none, List, [], ◌∷◌, ◌++◌, any, All,
}
use fastapi_claude_voice_age.Python.{ok, raise, other}
use fastapi_claude_voice_age.Persistence.{
  CallSession, TranscriptTurn, Database, Ties, fits, has_sid, exists, create, add_turn, kept,
  placed, order_by, turns_of,
}

module _ {A : Type 0} where
  pub kept-taken :
      (p : A → Bool) (xs : List A) (y : A)
      → p y ≡ true
      → kept p (xs ++ (y ∷ [])) ≡ kept p xs ++ (y ∷ [])
  unfolding kept
  kept-taken p [] y h = ground (arith, h)
  kept-taken p (x ∷ xs) y h = ground (arith, kept-taken p xs y h)

  kept-left :
      (p : A → Bool) (xs : List A) (y : A) → p y ≡ false → kept p (xs ++ (y ∷ [])) ≡ kept p xs
  unfolding kept
  kept-left p [] y h = ground (arith, h)
  kept-left p (x ∷ xs) y h = ground (arith, kept-left p xs y h)

  placed-last :
      (key : A → ℕ) (first : A → A → Bool) (x y : A) (xs : List A)
      → key x < key y
      → placed key first x (xs ++ (y ∷ [])) ≡ placed key first x xs ++ (y ∷ [])
  unfolding placed
  placed-last key first x y [] h = ground (arith, h)
  placed-last key first x y (z ∷ xs) h = ground (arith, placed-last key first x y xs h)

  pub order_by-last :
      (key : A → ℕ) (first : A → A → Bool) (xs : List A) (y : A)
      → All (λ x. key x < key y) xs
      → order_by key first (xs ++ (y ∷ [])) ≡ order_by key first xs ++ (y ∷ [])
  unfolding order_by placed
  order_by-last key first [] y h = refl
  order_by-last key first (x ∷ xs) y h =
      ap (placed key first x) (order_by-last key first xs y h.1)
      ∙ placed-last key first x y (order_by key first xs) h.0

  pub kept-All {κ} : (P : A → Type κ) (p : A → Bool) (xs : List A) → All P xs → All P (kept p xs)
  unfolding kept
  kept-All P p [] h = tt
  kept-All P p (x ∷ xs) h = elim (p x) as (λ b. All P (if b then x ∷ kept p xs else kept p xs)) [
    | true ↦ (h.0, kept-All P p xs h.1)
    | false ↦ kept-All P p xs h.1
  ]

any-append :
    (p : CallSession → Bool) (xs : List CallSession) (y : CallSession)
    → p y ≡ true
    → any p (xs ++ (y ∷ [])) ≡ true
any-append p [] y h = ground (arith, h)
any-append p (x ∷ xs) y h = ground (arith, any-append p xs y h)

-- A turn of a call that exists, with a role of at most 16 characters, is stored: if all stored
-- turns are older, the turns of the call, which the view shows in order of their times, are those of
-- before with the new one at the end, and those of any other call are as before.
pub add_turn-turns_of :
    (ties : Ties) (sid role text : String) (latency_ms : Option ℕ) (now : ℕ) (db : Database)
    → exists sid db ≡ true
    → fits 16 role ≡ true
    → All (λ (t : TranscriptTurn). t.created_at < now) db.turns
    → (db' : Database) × (add_turn sid role text latency_ms now db ≡ ok db')
      × (turns_of ties sid db'
          ≡ turns_of ties sid db
            ++ (record {
              id = suc db.last_turn;
              call_sid = sid;
              role = role;
              text = text;
              latency_ms = latency_ms;
              created_at = now;
            }
                ∷ []))
      × ((key : String) → (key == sid) ≡ false → turns_of ties key db' ≡ turns_of ties key db)
unfolding add_turn turns_of
add_turn-turns_of ties sid role text latency_ms now db known short older =
    let new : TranscriptTurn = record {
      id = suc db.last_turn;
      call_sid = sid;
      role = role;
      text = text;
      latency_ms = latency_ms;
      created_at = now;
    } in
    let at : TranscriptTurn → ℕ = λ t. t.created_at in
    let of : String → TranscriptTurn → Bool = λ key t. t.call_sid == key in
    let mine : (sid == sid) ≡ true = (eq_iff sid sid).1 refl in
    (
      record db { turns = db.turns ++ (new ∷ []); last_turn = suc db.last_turn },
      ground (arith, known, short),
      ap (order_by at ties.turns) (kept-taken (of sid) db.turns new mine)
          ∙ order_by-last at ties.turns (kept (of sid) db.turns) new
              (kept-All (λ (t : TranscriptTurn). t.created_at < now) (of sid) db.turns older),
      λ key h.
          ap (order_by at ties.turns)
            (kept-left (of key) db.turns new (ground (arith, h, eq_iff key sid, eq_iff sid key))),
    )

pub created :
    (sid from_number : String) (now : ℕ) (db : Database)
    → exists sid (record db {
      sessions =
          db.sessions
          ++ (record {
            call_sid = sid;
            from_number = from_number;
            started_at = now;
            ended_at = none;
          }
              ∷ []);
    })
      ≡ true
unfolding exists
created sid from_number now db =
    any-append (has_sid sid) db.sessions
      (record { call_sid = sid; from_number = from_number; started_at = now; ended_at = none })
      ((eq_iff sid sid).1 refl)

pub create-ok :
    (sid from_number : String) (now : ℕ) (db db' : Database)
    → create sid from_number now db ≡ ok db'
    → (fits 64 sid ≡ true) × (exists sid db' ≡ true)
unfolding create
create-ok sid from_number now db db' stored =
    let made : Database = record db {
      sessions =
          db.sessions
          ++ (record {
            call_sid = sid;
            from_number = from_number;
            started_at = now;
            ended_at = none;
          }
              ∷ []);
    } in
    let same : made ≡ db' = ground (arith, stored) in
    (ground (arith, stored), subst (λ d. exists sid d ≡ true) same (created sid from_number now db))

-- A second call of the same call_sid cannot be stored: once `create` has stored one, it raises for
-- this key.
pub create-create :
    (sid from_number other_number : String) (now later : ℕ) (db db' : Database)
    → create sid from_number now db ≡ ok db'
    → fits 32 other_number ≡ true
    → create sid other_number later db' ≡ raise (other "IntegrityError")
unfolding create
create-create sid from_number other_number now later db db' stored short =
    let (room, known) = create-ok sid from_number now db db' stored in
    ground (arith, room, known, short)
