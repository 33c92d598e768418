-- ===== src/Llm/Agent.antt =====
-- `ClaudeAgent`: its prompt-cache marks, and what of a reply's stop reason the loop looks at.
use fastapi_claude_voice_age.Base.{
  ◌≡◌, ◌≢◌, refl, sym, ◌∙◌, ap, Bool, false, String, some, List, [], ◌∷◌, ◌++◌, map, arith, ◌==◌,
  eq_iff, if◌then◌else◌, ℕ,
}
use fastapi_claude_voice_age.Python.{Json, Fields, obj, str, end, field, get, put}
use fastapi_claude_voice_age.Tools.World.{World}
use fastapi_claude_voice_age.Tools.Registry.{ToolRegistry, tool_specs}
use fastapi_claude_voice_age.Llm.{
  Reply, Answer, replied, failed, Message, Loop, is_refusal, absorb, begin, run_loop, run_turn,
}
use fastapi_claude_voice_age.Llm.Steps.{
  verdict, refused, spoken, asked, run_loop-refused, run_loop-spoken, run_loop-asked,
}

-- `{"type": "ephemeral"}`
abbrev pub ephemeral : Json
ephemeral = obj (field "type" (str "ephemeral") end)

mark_last : List Fields → List Fields
unfolding put
mark_last [] = []
mark_last (t ∷ []) = put "cache_control" ephemeral t ∷ []
mark_last (t ∷ u ∷ ts) = t ∷ mark_last (u ∷ ts)

-- `_build_tool_blocks`
unfoldable pub build_tool_blocks : ToolRegistry → List Fields
unfolding mark_last tool_specs
build_tool_blocks r = mark_last (tool_specs r)

-- `_build_system_blocks`, with the text of prompts/system.md.
unfoldable pub build_system_blocks : String → List Fields
build_system_blocks prompt =
    field "type" (str "text") (field "text" (str prompt) (field "cache_control" ephemeral end)) ∷ []

get-put :
    (j k : String) (v : Json) (d : Fields)
    → get j (put k v d) ≡ (if k == j then some v else get j d)
unfolding get put
get-put j k v end = refl
get-put j k v (field i w d) = ground (arith, eq_iff k j, eq_iff i k, eq_iff i j, get-put j k v d)

mark_last-snoc :
    (ts : List Fields) (t : Fields)
    → mark_last (ts ++ (t ∷ [])) ≡ ts ++ (put "cache_control" ephemeral t ∷ [])
unfolding mark_last
mark_last-snoc [] t = refl
mark_last-snoc (x ∷ []) t = refl
mark_last-snoc (x ∷ y ∷ ts) t = ap (◌∷◌ x) (mark_last-snoc (y ∷ ts) t)

-- If the registry's specifications are `ts` and then `t`, the tool list of a request is `ts` as they
-- are and then a block that differs from `t` in the key `cache_control` alone, which is `ephemeral`.
pub build_tool_blocks-get :
    (r : ToolRegistry) (ts : List Fields) (t : Fields)
    → tool_specs r ≡ ts ++ (t ∷ [])
    → (last : Fields) × (build_tool_blocks r ≡ ts ++ (last ∷ []))
      × ((key : String)
          → get key last ≡ (if "cache_control" == key then some ephemeral else get key t))
unfolding build_tool_blocks
build_tool_blocks-get r ts t e = (
  put "cache_control" ephemeral t,
  ap mark_last e ∙ mark_last-snoc ts t,
  λ key. get-put key "cache_control" ephemeral t,
)

-- The same answer with another stop reason, unless it is a refusal.
abbrev pub relabel : String → Answer → Answer
relabel reason (replied r) =
    replied (if is_refusal r then r else record r { stop_reason = some reason })
relabel reason (failed es e) = failed es e

relabelled_reply : String → Reply → Reply
relabelled_reply reason r = record r { stop_reason = some reason }

is_refusal-relabelled :
    (reason : String) (r : Reply)
    → reason ≢ "refusal"
    → is_refusal (relabelled_reply reason r) ≡ false
unfolding is_refusal relabelled_reply
is_refusal-relabelled reason r h = ground (arith, eq_iff reason "refusal")

module _ (dumps : Fields → String) (registry : ToolRegistry) where
  run_loop-relabel :
      (listening : Bool) (started : ℕ) (answers : List Answer) (s : Loop) (reason : String)
      → reason ≢ "refusal"
      → run_loop dumps registry listening started (map (relabel reason) answers) s
        ≡ run_loop dumps registry listening started answers s
  unfolding relabelled_reply absorb
  run_loop-relabel listening started [] s reason h = refl
  run_loop-relabel listening started (failed es e ∷ more) s reason h = unfold run_loop in refl
  run_loop-relabel listening started (replied r ∷ more) s reason h = elim (verdict r) [
    | refused e ↦ rw e (
        run_loop-refused dumps registry listening started r (map (relabel reason) more) s e
        ∙ sym (run_loop-refused dumps registry listening started r more s e))
    | spoken e f ↦ rw e (
        run_loop-spoken dumps registry listening started (relabelled_reply reason r)
          (map (relabel reason) more) s (is_refusal-relabelled reason r h) f
        ∙ sym (run_loop-spoken dumps registry listening started r more s e f))
    | asked u us e f ↦ rw e (
        run_loop-asked dumps registry listening started (relabelled_reply reason r)
          (map (relabel reason) more) s u us (is_refusal-relabelled reason r h) f
        ∙ (run_loop-relabel listening started more _ reason h
            ∙ sym (run_loop-asked dumps registry listening started r more s u us e f)))
  ]

  -- Any stop reason other than `refusal` is as good as another: with the stop reasons of all replies
  -- that are no refusals replaced by one such reason, a turn has the same outcome.
  pub run_turn-relabel :
      (listening : Bool) (messages : List Message) (w : World) (answers : List Answer)
      (reason : String)
      → reason ≢ "refusal"
      → run_turn dumps registry listening messages w (map (relabel reason) answers)
        ≡ run_turn dumps registry listening messages w answers
  unfolding run_turn
  run_turn-relabel listening messages w answers reason h =
      run_loop-relabel listening w.now answers (begin messages w) reason h
