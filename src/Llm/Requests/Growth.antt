-- ===== src/Llm/Requests/Growth.antt =====
-- The requests of a call have a common beginning, which the marks of the prompt cache rely on.
use fastapi_claude_voice_age.Base.{
  ◌≡◌, refl, sym, ap, ◌∙◌, ℕ, Bool, false, String, List, [], ◌∷◌, ◌++◌, map,
}
use mathlib.Core.List.{append_assoc, append-nil}
use fastapi_claude_voice_age.Python.{Fields}
use fastapi_claude_voice_age.Settings.{Settings}
use fastapi_claude_voice_age.Tools.World.{World}
use fastapi_claude_voice_age.Tools.Registry.{ToolRegistry}
use fastapi_claude_voice_age.Llm.{
  Message, user_text, assistant, tool_results, Reply, Answer, replied, failed, Loop, Turn, finished,
  raised, waiting, send, absorb, fall_back, feed_back, close_turn, begin, run_tools, run_loop,
  run_turn, add_user_text,
}
use fastapi_claude_voice_age.Llm.Steps.{
  heard, verdict, refused, spoken, asked, run_loop-refused, run_loop-spoken, run_loop-asked,
}
use fastapi_claude_voice_age.Llm.Conversation.{loop_of}
use fastapi_claude_voice_age.Llm.Requests.{
  ClaudeAgent, new_agent, Request, stream_request, Talk, and_then, converse,
}

abbrev Extends : List Message → List Message → Type 0
Extends a b = (more : List Message) × (b ≡ a ++ more)

trans-Extends : (a b c : List Message) → Extends a b → Extends b c → Extends a c
trans-Extends a b c (m, e) (n, f) = (m ++ n, f ∙ (ap (λ x. x ++ n) e ∙ append_assoc a m n))

same-Extends : (a : List Message) → Extends a a
same-Extends a = ([], sym (append-nil a))

-- Each of the lists `a`, `bs`, `last` is continued by the next.
abbrev Grows : List Message → List (List Message) → List Message → Type 0
Grows a [] last = Extends a last
Grows a (b ∷ bs) last = Extends a b × Grows b bs last

earlier-Grows :
    (z a last : List Message) (bs : List (List Message))
    → Extends z a
    → Grows a bs last
    → Grows z bs last
earlier-Grows z a last [] e g = trans-Extends z a last e g
earlier-Grows z a last (b ∷ bs) e g = (trans-Extends z a b e g.0, g.1)

later-Grows :
    (a m last : List Message) (bs : List (List Message))
    → Grows a bs m
    → Extends m last
    → Grows a bs last
later-Grows a m last [] g e = trans-Extends a m last g e
later-Grows a m last (b ∷ bs) g e = (g.0, later-Grows b m last bs g.1 e)

append-Grows :
    (a m last : List Message) (bs cs : List (List Message))
    → Grows a bs m
    → Grows m cs last
    → Grows a (bs ++ cs) last
append-Grows a m last [] cs g h = earlier-Grows a m last cs g h
append-Grows a m last (b ∷ bs) cs g h = (g.0, append-Grows b m last bs cs g.1 h)

module _ (dumps : Fields → String) (registry : ToolRegistry) where
  -- What the loop has sent and appended since the history `a`.
  abbrev Going : List Message → Loop → Type 0
  Going a s = Grows a s.requests s.messages

  send-Going : (a : List Message) (s : Loop) → Going a s → Going a (send s)
  unfolding send
  send-Going a s g =
      append-Grows a s.messages s.messages s.requests (s.messages ∷ []) g
        (same-Extends s.messages, same-Extends s.messages)

  heard-Going :
      (a : List Message) (listening : Bool) (r : Reply) (s : Loop)
      → Going a s
      → Going a (heard listening r s)
  unfolding absorb send
  heard-Going a listening r s g =
      later-Grows a s.messages (s.messages ++ (assistant r.content ∷ [])) (send s).requests
        (send-Going a s g) (assistant r.content ∷ [], refl)

  run_loop-Going :
      (a : List Message) (listening : Bool) (started : ℕ) (answers : List Answer) (s : Loop)
      → Going a s
      → Going a (loop_of (run_loop dumps registry listening started answers s))
  unfolding run_loop send close_turn fall_back feed_back
  run_loop-Going a listening started [] s g = send-Going a s g
  run_loop-Going a listening started (failed es e ∷ more) s g = send-Going a s g
  run_loop-Going a listening started (replied r ∷ more) s g =
      let v = heard-Going a listening r s g in
      elim (verdict r) [
        | refused e ↦ rw (run_loop-refused dumps registry listening started r more s e) v
        | spoken e f ↦ rw (run_loop-spoken dumps registry listening started r more s e f) v
        | asked u us e f ↦ rw (run_loop-asked dumps registry listening started r more s u us e f) (
            let s' = heard listening r s in
            let out = tool_results (run_tools dumps registry (u ∷ us) s'.world).results ∷ [] in
            run_loop-Going a listening started more (feed_back dumps registry (u ∷ us) s')
              (later-Grows a s'.messages (s'.messages ++ out) s'.requests v (out, refl)))
      ]

  run_turn-Going :
      (listening : Bool) (a : List Message) (w : World) (answers : List Answer)
      → Going a (loop_of (run_turn dumps registry listening a w answers))
  unfolding run_turn begin
  run_turn-Going listening a w answers =
      run_loop-Going a listening w.now answers (begin a w) (same-Extends a)

  and_then-Grows :
      (a : List Message) (t : Turn) (next : Loop → List (List Message) × List Message)
      → Going a (loop_of t)
      → ((s : Loop) → Grows s.messages (next s).0 (next s).1)
      → Grows a (and_then t next).0 (and_then t next).1
  and_then-Grows a (finished s) next g h =
      append-Grows a s.messages (next s).1 s.requests (next s).0 g (h s)
  and_then-Grows a (raised e s) next g h = g
  and_then-Grows a (waiting s) next g h = g

  converse-Grows :
      (talk : Talk) (a : List Message) (w : World)
      → Grows a (converse dumps registry talk a w).0 (converse dumps registry talk a w).1
  unfolding converse add_user_text
  converse-Grows [] a w = same-Extends a
  converse-Grows ((text, answers) ∷ rest) a w =
      and_then-Grows a (run_turn dumps registry false (add_user_text text a) w answers)
        (λ s. converse dumps registry rest s.messages s.world)
        (earlier-Grows a (add_user_text text a)
          (loop_of (run_turn dumps registry false (add_user_text text a) w answers)).messages
          (loop_of (run_turn dumps registry false (add_user_text text a) w answers)).requests
          (user_text text ∷ [], refl) (run_turn-Going false (add_user_text text a) w answers))
        (λ s. converse-Grows rest s.messages s.world)

-- The second request is the first with more messages after its own, and nothing else changed.
abbrev pub Continues : Request → Request → Type 0
Continues r r' = (more : List Message) × (r' ≡ record r { messages = r.messages ++ more })

abbrev pub IsChain : List Request → Type 0
IsChain [] = Unit
IsChain (r ∷ []) = Unit
IsChain (r ∷ r' ∷ rs) = Continues r r' × IsChain (r' ∷ rs)

map-IsChain :
    (agent : ClaudeAgent) (a last : List Message) (bs : List (List Message))
    → Grows a bs last
    → IsChain (stream_request agent a ∷ map (stream_request agent) bs)
unfolding stream_request
map-IsChain agent a last [] g = tt
map-IsChain agent a last (b ∷ bs) g =
    ((g.0.0, ap (stream_request agent) g.0.1), map-IsChain agent b last bs g.1)

-- In a call, over any number of turns and whatever the API answers, each request is the one before
-- with more messages after its own: model, system prompt, tools and all earlier messages stay as they
-- were, so what the prompt cache has kept of a request is the beginning of the next.
pub converse-IsChain :
    (dumps : Fields → String) (registry : ToolRegistry) (prompt : String) (settings : Settings)
    (talk : Talk) (w : World)
    → IsChain (
        map
          (stream_request (new_agent prompt settings registry))
          (converse dumps registry talk [] w).0)
converse-IsChain dumps registry prompt settings talk w =
    chained (converse dumps registry talk [] w).0 (converse dumps registry talk [] w).1
      (converse-Grows dumps registry talk [] w)
  where
    chained :
        (bs : List (List Message)) (last : List Message)
        → Grows [] bs last
        → IsChain (map (stream_request (new_agent prompt settings registry)) bs)
    chained [] last g = tt
    chained (b ∷ bs) last g = map-IsChain (new_agent prompt settings registry) b last bs g.1
