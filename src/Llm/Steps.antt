-- ===== src/Llm/Steps.antt =====
-- The loop of `run_turn`, an answer at a time: what one reply makes of the state.
use fastapi_claude_voice_age.Base.{
  ℕ, ◌≡◌, refl, ◌⊎◌, inl, inr, Bool, true, false, String, List, [], ◌∷◌, arith, Bool-cases,
}
use fastapi_claude_voice_age.Python.{Fields}
use fastapi_claude_voice_age.Tools.Registry.{ToolRegistry}
use fastapi_claude_voice_age.Llm.{
  ToolUse, Reply, Answer, replied, Loop, finished, tool_uses, is_refusal, send, absorb, fall_back,
  feed_back, close_turn, run_loop,
}

-- The state after the assistant message of a reply was appended.
abbrev pub heard : Bool → Reply → Loop → Loop
heard listening r s = absorb listening r (send s)

-- How the loop goes on after a reply.
pub data Verdict (r : Reply) : Type 0 where
  refused : is_refusal r ≡ true → Verdict r
  spoken : is_refusal r ≡ false → tool_uses r.content ≡ [] → Verdict r
  asked :
      (u : ToolUse) (us : List ToolUse)
      → is_refusal r ≡ false
      → tool_uses r.content ≡ u ∷ us
      → Verdict r

uses_cases : (us : List ToolUse) → (us ≡ []) ⊎ ((v : ToolUse) × (vs : List ToolUse) × (us ≡ v ∷ vs))
uses_cases [] = inl refl
uses_cases (v ∷ vs) = inr (v, vs, refl)

pub verdict : (r : Reply) → Verdict r
verdict r = elim (Bool-cases (is_refusal r)) [
  | inl e ↦ refused e
  | inr e ↦ elim (uses_cases (tool_uses r.content)) [
    | inl none_left ↦ spoken e none_left
    | inr (u, us, some_left) ↦ asked u us e some_left
  ]
]

module _ (dumps : Fields → String) (registry : ToolRegistry) (listening : Bool) (started : ℕ)
    (r : Reply) (more : List Answer) (s : Loop) where
  pub run_loop-refused :
      is_refusal r ≡ true
      → run_loop dumps registry listening started (replied r ∷ more) s
        ≡ finished (close_turn started (fall_back (heard listening r s)))
  unfolding run_loop
  run_loop-refused e = ground arith

  pub run_loop-spoken :
      is_refusal r ≡ false
      → tool_uses r.content ≡ []
      → run_loop dumps registry listening started (replied r ∷ more) s
        ≡ finished (close_turn started (heard listening r s))
  unfolding run_loop
  run_loop-spoken e f = ground arith

  pub run_loop-asked :
      (u : ToolUse) (us : List ToolUse)
      → is_refusal r ≡ false
      → tool_uses r.content ≡ u ∷ us
      → run_loop dumps registry listening started (replied r ∷ more) s
        ≡ run_loop dumps registry listening started more
            (feed_back dumps registry (u ∷ us) (heard listening r s))
  unfolding run_loop
  run_loop-asked u us e f = ground arith
