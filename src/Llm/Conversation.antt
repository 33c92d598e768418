-- ===== src/Llm/Conversation.antt =====
-- The history that goes to the API: each `tool_use` block is answered by a result in the next message.
use fastapi_claude_voice_age.Base.{
  ap, ℕ, ◌≡◌, refl, ◌∙◌, Bool, true, false, String, Option, none, some, List, [], ◌∷◌, ◌++◌, map,
  arith, All, All-append, inl, inr, Option-cases, ◌==◌, ◌&&◌, eq_iff, if◌then◌else◌,
}
use fastapi_claude_voice_age.Python.{Fields}
use fastapi_claude_voice_age.Tools.World.{World}
use fastapi_claude_voice_age.Tools.Registry.{ToolRegistry}
use fastapi_claude_voice_age.Llm.Steps.{
  heard, verdict, refused, spoken, asked, run_loop-refused, run_loop-spoken, run_loop-asked,
}
use fastapi_claude_voice_age.Llm.{
  ToolUse, Block, Reply, Answer, replied, failed, ToolResult, Message, user_text, assistant,
  tool_results, Loop, Turn, finished, raised, waiting, tool_uses, is_refusal, run_tools, send,
  fall_back, close_turn, begin, run_loop, run_turn, add_user_text,
}

abbrev pub ids : List ToolUse → List String
ids = map (λ u. u.id)

abbrev pub result_ids : List ToolResult → List String
result_ids = map (λ r. r.tool_use_id)

abbrev same : List String → List String → Bool
same [] [] = true
same (x ∷ xs) (y ∷ ys) = (x == y) && same xs ys
same _ _ = false

-- The API's rule on tool uses and their results, message by message: with the ids of tool uses that
-- wait for a result, the ids that wait after the message. Any message but the results of just these
-- ids breaks it. The API's other rules on messages are left out.
pub pair : List String → Message → Option (List String)
unfolding tool_uses
pair [] (user_text s) = some []
pair [] (assistant bs) = some (ids (tool_uses bs))
pair [] (tool_results rs) = none
pair (i ∷ is) (tool_results rs) = if same (result_ids rs) (i ∷ is) then some [] else none
pair (i ∷ is) _ = none

-- The ids that wait at the end of a history, or `none` if it breaks the rule, and the API refuses it.
pub replay_from : List String → List Message → Option (List String)
unfolding pair
replay_from pending [] = some pending
replay_from pending (m ∷ ms) = elim (pair pending m) [
  | none ↦ none
  | some pending' ↦ replay_from pending' ms
]

unfoldable pub replay : List Message → Option (List String)
unfolding replay_from
replay = replay_from []

-- A history that keeps the rule with nothing left to answer.
abbrev pub IsAnswered : List Message → Type 0
IsAnswered ms = replay ms ≡ some []

replay_from-snoc :
    (p : List String) (ms : List Message) (m : Message) (q : List String)
    → replay_from p ms ≡ some q
    → replay_from p (ms ++ (m ∷ [])) ≡ pair q m
unfolding replay_from
replay_from-snoc p [] m q h = ground arith
replay_from-snoc p (x ∷ ms) m q h = elim (Option-cases (pair p x)) [
  | inl e ↦ ground arith
  | inr (p', e) ↦ ground (arith, replay_from-snoc p' ms m q)
]

same_refl : (xs : List String) → same xs xs ≡ true
same_refl [] = refl
same_refl (x ∷ xs) = ground (arith, eq_iff x x, same_refl xs)

-- No reply that is a refusal holds a tool use.
abbrev pub IsClean : Answer → Type 0
IsClean (replied r) = (if is_refusal r then tool_uses r.content else []) ≡ []
IsClean (failed es e) = Unit

-- A state of the loop in which the history and each request so far keep the rule, with nothing left
-- to answer.
pub record IsSound (s : Loop) : Type 0 where
  pub answered : IsAnswered s.messages
  pub paired : All IsAnswered s.requests

-- Where a turn stands, however it ended.
abbrev pub loop_of : Turn → Loop
loop_of (finished s) = s
loop_of (raised e s) = s
loop_of (waiting s) = s

send-paired : (s : Loop) → IsSound s → All IsAnswered (send s).requests
unfolding send
send-paired s v = All-append IsAnswered s.requests (s.messages ∷ []) v.paired (v.answered, tt)

replay-assistant :
    (ms : List Message) (bs : List Block)
    → IsAnswered ms
    → replay (ms ++ (assistant bs ∷ [])) ≡ some (ids (tool_uses bs))
unfolding replay
replay-assistant ms bs h = replay_from-snoc [] ms (assistant bs) [] h

answered-assistant :
    (ms : List Message) (bs : List Block)
    → IsAnswered ms
    → tool_uses bs ≡ []
    → IsAnswered (ms ++ (assistant bs ∷ []))
answered-assistant ms bs h e = replay-assistant ms bs h ∙ ap (λ x. some (ids x)) e

clean_refusal : (r : Reply) → IsClean (replied r) → is_refusal r ≡ true → tool_uses r.content ≡ []
clean_refusal r c e = ground arith

replay-results :
    (ms : List Message) (rs : List ToolResult) (i : String) (is : List String)
    → replay ms ≡ some (i ∷ is)
    → result_ids rs ≡ i ∷ is
    → IsAnswered (ms ++ (tool_results rs ∷ []))
unfolding replay
replay-results ms rs i is h e =
    replay_from-snoc [] ms (tool_results rs) (i ∷ is) h ∙ rw (e, pair, same_refl (i ∷ is))

module _ (dumps : Fields → String) (registry : ToolRegistry) where
  -- The results of a batch of tool uses carry the ids of the batch, in its order.
  pub result_ids-run_tools :
      (us : List ToolUse) (w : World) → result_ids (run_tools dumps registry us w).results ≡ ids us
  unfolding run_tools
  result_ids-run_tools [] w = refl
  result_ids-run_tools (u ∷ us) w = ap (◌∷◌ u.id) (result_ids-run_tools us _)

  -- One round: an assistant message with tool uses, and the message of their results.
  replay-round :
      (ms : List Message) (bs : List Block) (u : ToolUse) (us : List ToolUse) (w : World)
      → IsAnswered ms
      → tool_uses bs ≡ u ∷ us
      → IsAnswered (
          (ms ++ (assistant bs ∷ []))
          ++ (tool_results (run_tools dumps registry (u ∷ us) w).results ∷ []))
  replay-round ms bs u us w h e =
      replay-results _ _ u.id (ids us) (replay-assistant ms bs h ∙ ap (λ x. some (ids x)) e)
        (result_ids-run_tools (u ∷ us) w)

  run_loop-IsSound :
      (listening : Bool) (started : ℕ) (answers : List Answer) (s : Loop)
      → IsSound s
      → All IsClean answers
      → IsSound (loop_of (run_loop dumps registry listening started answers s))
  unfolding run_loop
  run_loop-IsSound listening started [] s v c = record {
    answered = v.answered;
    paired = send-paired s v;
  }
  run_loop-IsSound listening started (failed es e ∷ more) s v c = record {
    answered = v.answered;
    paired = send-paired s v;
  }
  run_loop-IsSound listening started (replied r ∷ more) s v c = elim (verdict r) [
    | refused e ↦ rw (run_loop-refused dumps registry listening started r more s e) (record {
      answered = answered-assistant s.messages r.content v.answered (clean_refusal r c.0 e);
      paired = send-paired s v;
    })
    | spoken e f ↦ rw (run_loop-spoken dumps registry listening started r more s e f) (record {
      answered = answered-assistant s.messages r.content v.answered f;
      paired = send-paired s v;
    })
    | asked u us e f ↦ rw (run_loop-asked dumps registry listening started r more s u us e f) (
        run_loop-IsSound listening started more _
          (record {
            answered = replay-round s.messages r.content u us _ v.answered f;
            paired = send-paired s v;
          })
          c.1)
  ]

  -- If the history before a turn has nothing left to answer, and no refusal among the replies holds a
  -- tool use, then in each request of the turn and in the history after it, however the turn ends, each
  -- tool use is answered by its result in the next message, in the order of the uses, and no result is
  -- without its use.
  pub run_turn-IsAnswered :
      (listening : Bool) (messages : List Message) (w : World) (answers : List Answer)
      → IsAnswered messages
      → All IsClean answers
      → IsSound (loop_of (run_turn dumps registry listening messages w answers))
  unfolding run_turn
  run_turn-IsAnswered listening messages w answers h c =
      run_loop-IsSound listening w.now answers (begin messages w)
        (record { answered = h; paired = tt }) c

  -- If the history before a turn has nothing left to answer, and the first reply is a refusal with a
  -- tool use, then the turn ends there, the ids of the tool uses are left unanswered, and the API
  -- refuses the history once the next user text is added.
  pub run_turn_refused :
      (listening : Bool) (messages : List Message) (w : World) (r : Reply) (more : List Answer)
      (u : ToolUse) (us : List ToolUse) (next : String)
      → IsAnswered messages
      → is_refusal r ≡ true
      → tool_uses r.content ≡ u ∷ us
      → let t = run_turn dumps registry listening messages w (replied r ∷ more) in
        (s : Loop) × (t ≡ finished s)
        × (replay s.messages ≡ some (u.id ∷ ids us))
        × (replay (add_user_text next s.messages) ≡ none)
  unfolding run_turn add_user_text replay
  run_turn_refused listening messages w r more u us next h e f =
      let left = replay-assistant messages r.content h ∙ ap (λ x. some (ids x)) f in
      (
        close_turn w.now (fall_back (heard listening r (begin messages w))),
        run_loop-refused dumps registry listening w.now r more (begin messages w) e,
        left,
        replay_from-snoc [] (messages ++ (assistant r.content ∷ [])) (user_text next)
            (u.id ∷ ids us) left,
      )
