-- ===== src/Orchestrator/Storage/Rows.antt =====
-- What the tables hold of a call after writes that they take.
use fastapi_claude_voice_age.Base.{
  ◌≡◌, refl, ap, sym, subst, ◌∙◌, ℕ, suc, ◌<◌, arith, String, true, some, List, [], ◌∷◌, ◌++◌, All,
}
use mathlib.Core.List.{append_assoc, append-nil}
use fastapi_claude_voice_age.Python.{ok}
use fastapi_claude_voice_age.Llm.{ToolCall}
use fastapi_claude_voice_age.Persistence.{Ties, Database, fits}
use fastapi_claude_voice_age.Persistence.Stored.{
  Turn, Use, Holds, add_turn-Holds, add_tool_call-Holds, mark_ended-Holds,
}
use fastapi_claude_voice_age.Orchestrator.Call.{
  Row, session, turn, tool_call, ended, answered, Event, consumer_wakes,
}
use fastapi_claude_voice_age.Orchestrator.Storage.{store, store_all}

-- The turns and the tool calls among the writes.
abbrev pub turn_rows : List Row → List Turn
turn_rows [] = []
turn_rows (turn role text latency_ms ∷ rows) = (role, text, latency_ms) ∷ turn_rows rows
turn_rows (_ ∷ rows) = turn_rows rows

abbrev pub use_rows : List Row → List Use
use_rows [] = []
use_rows (tool_call t ∷ rows) = (t.name, t.input, t.output, some t.latency_ms) ∷ use_rows rows
use_rows (_ ∷ rows) = use_rows rows

-- The names of the tools fit into their column.
abbrev pub HasNames : List ToolCall → Type 0
HasNames = All (λ (t : ToolCall). fits 64 t.name ≡ true)

abbrev pub EventFits : Event → Type 0
EventFits (consumer_wakes (answered t latency_ms)) = HasNames t.tool_calls
EventFits _ = Unit

-- A write after the first that the tables take.
abbrev pub IsStorable : Row → Type 0
IsStorable (session call_sid from_number) = ⊥
IsStorable (turn role text latency_ms) = fits 16 role ≡ true
IsStorable (tool_call t) = fits 64 t.name ≡ true
IsStorable ended = Unit

store-Holds :
    (ties : Ties) (sid : String) (row : Row) (now later : ℕ) (db : Database) (turns : List Turn)
    (uses : List Use)
    → Holds ties sid now db turns uses
    → now < later
    → IsStorable row
    → (db' : Database) × (store sid row later db ≡ ok db')
      × Holds ties sid later db' (turns ++ turn_rows (row ∷ [])) (uses ++ use_rows (row ∷ []))
unfolding store
store-Holds ties sid (session call_sid from_number) now later db turns uses v l h = absurd h
store-Holds ties sid (turn role text latency_ms) now later db turns uses v l h =
    let (db', e, w) = add_turn-Holds ties sid role text latency_ms now later db turns uses v l h in
    (db', e, rw (append-nil uses) w)
store-Holds ties sid (tool_call t) now later db turns uses v l h =
    let (db', e, w) =
      add_tool_call-Holds ties sid t.name t.input t.output (some t.latency_ms) now later db turns
        uses v l h in
    (db', e, rw (append-nil turns) w)
store-Holds ties sid ended now later db turns uses v l h = (
  _,
  refl,
  rw (append-nil turns, append-nil uses)
      (mark_ended-Holds ties sid now later db turns uses v (omega (arith, l))),
)

turn_rows-cons :
    (row : Row) (rows : List Row) → turn_rows (row ∷ rows) ≡ turn_rows (row ∷ []) ++ turn_rows rows
turn_rows-cons (session a b) rows = refl
turn_rows-cons (turn r t l) rows = refl
turn_rows-cons (tool_call t) rows = refl
turn_rows-cons ended rows = refl

use_rows-cons :
    (row : Row) (rows : List Row) → use_rows (row ∷ rows) ≡ use_rows (row ∷ []) ++ use_rows rows
use_rows-cons (session a b) rows = refl
use_rows-cons (turn r t l) rows = refl
use_rows-cons (tool_call t) rows = refl
use_rows-cons ended rows = refl

moved :
    (ties : Ties) (sid : String) (now : ℕ) (db : Database) (turns turns' : List Turn)
    (uses uses' : List Use)
    → Holds ties sid now db turns uses
    → turns ≡ turns'
    → uses ≡ uses'
    → Holds ties sid now db turns' uses'
moved ties sid now db turns turns' uses uses' v e f =
    subst (Holds ties sid now db turns') f (subst (λ x. Holds ties sid now db x uses) e v)

module _ (ties : Ties) (sid : String) (clock : ℕ → ℕ)
    (forward : (n : ℕ) → clock n < clock (suc n)) where
  -- The writes after the first.
  pub store_all-Holds :
      (rows : List Row) (n : ℕ) (db : Database) (turns : List Turn) (uses : List Use)
      → Holds ties sid (clock n) db turns uses
      → All IsStorable rows
      → (db' : Database) × (m : ℕ) × (store_all sid clock (suc n) rows db ≡ ok db')
        × Holds ties sid (clock m) db' (turns ++ turn_rows rows) (uses ++ use_rows rows)
  unfolding store_all
  store_all-Holds [] n db turns uses v h = (db, n, refl, rw (append-nil turns, append-nil uses) v)
  store_all-Holds (row ∷ rows) n db turns uses v h =
      let (db1, e, w) =
        store-Holds ties sid row (clock n) (clock (suc n)) db turns uses v (forward n) h.0 in
      let (db2, m, f, u) =
        store_all-Holds rows (suc n) db1 (turns ++ turn_rows (row ∷ []))
          (uses ++ use_rows (row ∷ [])) w h.1 in
      (
        db2,
        m,
        rw e f,
        moved ties sid (clock m) db2 ((turns ++ turn_rows (row ∷ [])) ++ turn_rows rows)
            (turns ++ turn_rows (row ∷ rows)) ((uses ++ use_rows (row ∷ [])) ++ use_rows rows)
            (uses ++ use_rows (row ∷ rows)) u
            (append_assoc turns (turn_rows (row ∷ [])) (turn_rows rows)
              ∙ ap (λ x. turns ++ x) (sym (turn_rows-cons row rows)))
            (append_assoc uses (use_rows (row ∷ [])) (use_rows rows)
              ∙ ap (λ x. uses ++ x) (sym (use_rows-cons row rows))),
      )
