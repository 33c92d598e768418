-- ===== src/Llm/Rounds.antt =====
-- The rounds of a turn in which the model asks for tools, and what they add up to.
use fastapi_claude_voice_age.Base.{
  ℕ, ◌+◌, ◌≡◌, refl, sym, ◌∙◌, ap, Bool, String, List, [], ◌∷◌, ◌++◌, map, arith, All, length,
  length-append,
}
use mathlib.Core.List.{append_assoc, append-nil, map-append}
use fastapi_claude_voice_age.Python.{Fields}
use fastapi_claude_voice_age.Tools.World.{World}
use fastapi_claude_voice_age.Tools.Registry.{ToolRegistry}
use fastapi_claude_voice_age.Llm.{
  ToolUse, Reply, Answer, replied, Loop, or_zero, tool_uses, run_tools, send, absorb, feed_back,
  run_loop,
}
use fastapi_claude_voice_age.Llm.Steps.{heard, verdict, refused, spoken, asked, run_loop-asked}
use fastapi_claude_voice_age.Llm.Sums.{IsAsking, joined, total, uses_of, called, asked_for}

-- `s` is where the loop stands, from `start`, after the replies `heard_replies` and the tools `used`.
pub record Follows (start s : Loop) (heard_replies : List Reply) (used : List ToolUse)
    : Type 0 where
  pub text : s.result.text ≡ joined start.result.text heard_replies
  pub calls : called s.result.tool_calls ≡ called start.result.tool_calls ++ asked_for used
  pub input :
      s.result.input_tokens
      ≡ start.result.input_tokens + total (λ r. r.usage.input_tokens) heard_replies
  pub output :
      s.result.output_tokens
      ≡ start.result.output_tokens + total (λ r. r.usage.output_tokens) heard_replies
  pub cache_read :
      s.result.cache_read_tokens
      ≡ start.result.cache_read_tokens
        + total (λ r. or_zero r.usage.cache_read_input_tokens) heard_replies
  pub cache_creation :
      s.result.cache_creation_tokens
      ≡ start.result.cache_creation_tokens
        + total (λ r. or_zero r.usage.cache_creation_input_tokens) heard_replies

module _ (dumps : Fields → String) (registry : ToolRegistry) where
  pub called-run_tools :
      (us : List ToolUse) (w : World) → called (run_tools dumps registry us w).calls ≡ asked_for us
  unfolding run_tools
  called-run_tools [] w = refl
  called-run_tools (u ∷ us) w = ap (◌∷◌ (u.name, u.input)) (called-run_tools us _)

  -- One reply that asks for tools, with their results fed back.
  abbrev round : Bool → Reply → Loop → Loop
  round listening r s = feed_back dumps registry (tool_uses r.content) (heard listening r s)

  abbrev pub rounds : Bool → List Reply → Loop → Loop
  rounds listening [] s = s
  rounds listening (r ∷ rs) s = rounds listening rs (round listening r s)

  pub run_loop-rounds :
      (listening : Bool) (started : ℕ) (rs : List Reply) (rest : List Answer) (s : Loop)
      → All IsAsking rs
      → run_loop dumps registry listening started (map replied rs ++ rest) s
        ≡ run_loop dumps registry listening started rest (rounds listening rs s)
  run_loop-rounds listening started [] rest s h = refl
  run_loop-rounds listening started (r ∷ rs) rest s ((plain, some_left), h) = elim (verdict r) [
    | refused e ↦ absurd (cc)
    | spoken e f ↦ absurd (some_left f)
    | asked u us e f ↦
        run_loop-asked dumps registry listening started r (map replied rs ++ rest) s u us e f
        ∙ (rw (← f) (run_loop-rounds listening started rs rest (round listening r s) h))
  ]

  pub rounds-Follows :
      (listening : Bool) (rs : List Reply) (s : Loop)
      → Follows s (rounds listening rs s) rs (uses_of rs)
  unfolding send absorb feed_back
  rounds-Follows listening [] s = record {
    text = refl;
    calls = sym (append-nil _);
    input = omega arith;
    output = omega arith;
    cache_read = omega arith;
    cache_creation = omega arith;
  }
  rounds-Follows listening (r ∷ rs) s =
      let f = rounds-Follows listening rs (round listening r s) in
      record {
        text = f.text;
        calls = f.calls ∙ simp (map-append, called-run_tools, append_assoc);
        input = omega (arith, f.input);
        output = omega (arith, f.output);
        cache_read = omega (arith, f.cache_read);
        cache_creation = omega (arith, f.cache_creation);
      }

  pub length-requests :
      (listening : Bool) (rs : List Reply) (s : Loop)
      → length (rounds listening rs s).requests ≡ length s.requests + length rs
  unfolding send absorb feed_back
  length-requests listening [] s = omega arith
  length-requests listening (r ∷ rs) s = omega (
    arith,
    length-requests listening rs (round listening r s),
    length-append s.requests (s.messages ∷ []),
  )
