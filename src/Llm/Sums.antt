-- ===== src/Llm/Sums.antt =====
-- Sums over the replies of a turn: their texts joined, their tokens added up, their tool uses.
use fastapi_claude_voice_age.Base.{
  ℕ, ◌+◌, ◌≡◌, ◌≢◌, refl, ◌⊎◌, true, false, String, ◌<>◌, List, [], ◌∷◌, ◌++◌, map, arith,
}
use fastapi_claude_voice_age.Python.{Fields}
use fastapi_claude_voice_age.Llm.{ToolUse, Reply, ToolCall, text_of, tool_uses, is_refusal}

-- A reply after which the loop goes on: tools are asked for, and it is no refusal.
abbrev pub IsAsking : Reply → Type 0
IsAsking r = (is_refusal r ≡ false) × (tool_uses r.content ≢ [])

-- A reply that ends the turn.
abbrev pub IsFinal : Reply → Type 0
IsFinal r = (is_refusal r ≡ true) ⊎ (tool_uses r.content ≡ [])

abbrev pub joined : String → List Reply → String
joined t [] = t
joined t (r ∷ rs) = joined (t <> text_of r) rs

abbrev pub total : (Reply → ℕ) → List Reply → ℕ
total f [] = 0
total f (r ∷ rs) = f r + total f rs

abbrev pub uses_of : List Reply → List ToolUse
uses_of [] = []
uses_of (r ∷ rs) = tool_uses r.content ++ uses_of rs

-- The tools that were called, with their arguments.
abbrev pub called : List ToolCall → List (String × Fields)
called = map (λ c. (c.name, c.input))

abbrev pub asked_for : List ToolUse → List (String × Fields)
asked_for = map (λ u. (u.name, u.input))

pub joined-snoc :
    (t : String) (rs : List Reply) (r : Reply)
    → joined t (rs ++ (r ∷ [])) ≡ joined t rs <> text_of r
joined-snoc t [] r = refl
joined-snoc t (x ∷ rs) r = joined-snoc (t <> text_of x) rs r

pub total-snoc :
    (f : Reply → ℕ) (rs : List Reply) (r : Reply) → total f (rs ++ (r ∷ [])) ≡ total f rs + f r
total-snoc f [] r = omega arith
total-snoc f (x ∷ rs) r = omega (arith, total-snoc f rs r)
