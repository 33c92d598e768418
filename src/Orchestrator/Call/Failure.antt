-- ===== src/Orchestrator/Call/Failure.antt =====
-- What an exception in a turn does to the rest of the call.
use fastapi_claude_voice_age.Base.{
  ℕ, ◌≡◌, refl, ap, ◌∙◌, false, String, Option, none, some, List, [], ◌∷◌, ◌++◌, arith,
}
use fastapi_claude_voice_age.Python.{Exn}
use fastapi_claude_voice_age.Orchestrator.Playback.{Wake, Playback}
use fastapi_claude_voice_age.Orchestrator.Call.{
  thinking, gone, Heard, failed, Call, Event, transcribed, consumer_wakes, playback_wakes,
  former_wakes, stop_called, stop_goes_on, consume, wake_current, wake_former, stop, cancel_speak,
  finish_stop, is_gone, step, run,
}
use fastapi_claude_voice_age.Orchestrator.Call.Turn.{step-consume}

-- The consumer is at its end, and the model was given these texts.
abbrev Deaf : Option Exn → List String → Call → Type 0
Deaf e texts c = (c.consumer ≡ gone e) × (c.user_texts ≡ texts)

wake_current-Deaf :
    (e : Option Exn) (texts : List String) (p : Option Playback) (w : Wake) (c : Call)
    → Deaf e texts c
    → Deaf e texts (wake_current p w c)
unfolding wake_current
wake_current-Deaf e texts none w c h = h
wake_current-Deaf e texts (some p) w c h = h

wake_former-Deaf :
    (e : Option Exn) (texts : List String) (passed ps : List Playback) (n : ℕ) (w : Wake) (c : Call)
    → Deaf e texts c
    → Deaf e texts (wake_former passed ps n w c)
unfolding wake_former
wake_former-Deaf e texts passed [] n w c h = h
wake_former-Deaf e texts passed (p ∷ ps) ℕ.zero w c h = h
wake_former-Deaf e texts passed (p ∷ ps) (ℕ.suc n) w c h =
    wake_former-Deaf e texts (passed ++ (p ∷ [])) ps n w c h

consumer-Deaf :
    (e : Option Exn) (texts : List String) (heard : Heard) (c : Call)
    → Deaf e texts c
    → step c (consumer_wakes heard) ≡ c
unfolding step
consumer-Deaf e texts heard c h = rw (ap is_gone h.0) (ground arith)

step-Deaf :
    (e : Option Exn) (texts : List String) (c : Call) (event : Event)
    → Deaf e texts c
    → Deaf e texts (step c event)
step-Deaf e texts c (transcribed text is_final) h = unfold step in h
step-Deaf e texts c (consumer_wakes heard) h = rw (consumer-Deaf e texts heard c h) h
step-Deaf e texts c (playback_wakes w) h = unfold step in wake_current-Deaf e texts c.current w c h
step-Deaf e texts c (former_wakes n w) h =
    unfold step in wake_former-Deaf e texts [] c.former n w c h
step-Deaf e texts c stop_called h = unfold step stop cancel_speak in ground arith
step-Deaf e texts c stop_goes_on h = unfold step finish_stop in ground arith

run-Deaf :
    (e : Option Exn) (texts : List String) (c : Call) (es : List Event)
    → Deaf e texts c
    → Deaf e texts (run c es)
unfolding run
run-Deaf e texts c [] h = h
run-Deaf e texts c (event ∷ es) h = run-Deaf e texts (step c event) es (step-Deaf e texts c event h)

-- If the model's turn raises an exception, the consumer of transcripts ends with it: whatever events
-- follow, no later text of the caller is given to the model. The call is not stopped by it.
pub run_model_failed :
    (c : Call) (e : Exn) (es : List Event)
    → c.consumer_cancelled ≡ false
    → c.consumer ≡ thinking
    → let c1 = step c (consumer_wakes (failed e)) in
      (c1.stopped ≡ c.stopped)
      × ((run c1 es).consumer ≡ gone (some e))
      × ((run c1 es).user_texts ≡ c.user_texts)
run_model_failed c e es live here =
    let first = step-consume c thinking (failed e) live here in
    let deaf = run-Deaf (some e) c.user_texts (step c (consumer_wakes (failed e))) es (
      ap (λ x. x.consumer) first ∙ (unfold consume in refl),
      ap (λ x. x.user_texts) first ∙ (unfold consume in refl),
    ) in
    (ap (λ x. x.stopped) first ∙ (unfold consume in refl), deaf.0, deaf.1)
