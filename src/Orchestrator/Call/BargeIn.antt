-- ===== src/Orchestrator/Call/BargeIn.antt =====
-- Partial transcripts: what they cut off, and what they should not.
use fastapi_claude_voice_age.Base.{
  ℕ, ◌≡◌, ◌≤◌, refl, ap, ◌∙◌, Bool, false, String, Option, some, List, [], ◌∷◌, ◌++◌, map, arith,
  All, length,
}
use fastapi_claude_voice_age.Base.Text.{codes}
use fastapi_claude_voice_age.Python.{is_blank}
use fastapi_claude_voice_age.Llm.{TurnResult}
use fastapi_claude_voice_age.Orchestrator.Playback.{Wake, Playback, is_done, cancel, start_playback}
use fastapi_claude_voice_age.Orchestrator.Playback.Cancel.{IsSilent, cancel-IsSilent}
use fastapi_claude_voice_age.Orchestrator.Call.{
  listening, thinking, storing_reply, ready, answered, Call, Event, consumer_wakes, playback_wakes,
  is_speaking, cancel_speak, to_list, speak, take_transcript, reply_rows, reply, consume, step, run,
}
use fastapi_claude_voice_age.Orchestrator.Call.Turn.{
  storing_events, step-consume, run-storing_events,
}
use fastapi_claude_voice_age.Orchestrator.Call.Invariant.Steps.{wake_current-IsSilent}

-- The awaits of the newest playback, one after another.
abbrev pub playing : List Wake → List Event
playing = map playback_wakes

silent-run :
    (ws : List Wake) (c : Call)
    → All IsSilent (to_list c.current)
    → (q : Option Playback) × (run c (playing ws) ≡ record c { current = q })
unfolding run step
silent-run [] c h = (c.current, refl)
silent-run (w ∷ ws) c h =
    let (q, e, quiet) = wake_current-IsSilent c.current w c refl h in
    let (q', e') = silent-run ws (record c { current = q }) quiet in
    (q', ap (λ x. run x (playing ws)) e ∙ e')

take_transcript-partial :
    (c : Call) (text : String) (q : List (String × Bool)) (p : Playback)
    → c.queue ≡ (text, false) ∷ q
    → c.current ≡ some p
    → is_done p ≡ false
    → 3 ≤ length (codes text)
    → take_transcript c ≡ record c { queue = q; current = some (cancel p) }
unfolding take_transcript is_speaking cancel_speak
take_transcript-partial c text q p e f g h = ground arith

-- Barge-in: if the assistant speaks and the next transcript is partial with three characters or more,
-- then the playback is cancelled, and whatever its awaits give from then on, no further frame is sent
-- and nothing is stored; the consumer listens on.
pub barge_in :
    (c : Call) (text : String) (q : List (String × Bool)) (p : Playback) (ws : List Wake)
    → c.consumer_cancelled ≡ false
    → c.consumer ≡ listening
    → c.queue ≡ (text, false) ∷ q
    → c.current ≡ some p
    → is_done p ≡ false
    → 3 ≤ length (codes text)
    → (p' : Option Playback) × (run c (consumer_wakes ready ∷ playing ws)
        ≡ record c { queue = q; current = p' })
unfolding run consume
barge_in c text q p ws live at_rest heard speaking busy long =
    let e =
      step-consume c listening ready live at_rest
      ∙ take_transcript-partial c text q p heard speaking busy long in
    let c' = record c { queue = q; current = some (cancel p) } in
    let (p', e') = silent-run ws c' (cancel-IsSilent p, tt) in
    (p', ap (λ x. run x (playing ws)) e ∙ e')

-- A partial transcript that came while the model was thinking is taken after the reply has begun to
-- play. If it has three characters or more, then the reply, which is stored, is cut off before its
-- first frame, whatever its awaits give.
pub late_partial :
    (c : Call) (t : TurnResult) (took : ℕ) (text : String) (q : List (String × Bool))
    (ws : List Wake)
    → c.consumer_cancelled ≡ false
    → c.consumer ≡ thinking
    → c.queue ≡ (text, false) ∷ q
    → 3 ≤ length (codes text)
    → is_blank t.text ≡ false
    → let c' = run c (
        consumer_wakes (answered t took)
        ∷ (storing_events (reply_rows t took) ++ (consumer_wakes ready ∷ playing ws))) in
      (c'.frames ≡ c.frames) × (c'.rows ≡ c.rows ++ reply_rows t took)
unfolding run speak start_playback is_done
late_partial c t took text q ws live here heard long loud =
    let rows = c.rows ++ reply_rows t took in
    let c1 = record c { consumer = storing_reply t (reply_rows t took) } in
    let c2 = record c { rows = rows; consumer = listening } in
    let rest = consumer_wakes ready ∷ playing ws in
    let e1 : step c (consumer_wakes (answered t took)) ≡ c1 =
      step-consume c thinking (answered t took) live here ∙ (unfold consume in refl) in
    let e2 : reply t (record c1 { rows = rows }) ≡ speak t.text false c2 =
      unfold reply in rw loud in
    let (p', e3) =
      barge_in (speak t.text false c2) text q (start_playback t.text false) ws live refl heard refl
        refl long in
    let whole =
      ap (λ x. run x (storing_events (reply_rows t took) ++ rest)) e1
      ∙ (run-storing_events t (reply_rows t took) c1 rest live refl
          ∙ (ap (λ x. run x rest) e2 ∙ e3)) in
    (ap (λ x. x.frames) whole, ap (λ x. x.rows) whole)
