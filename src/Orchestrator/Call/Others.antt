-- ===== src/Orchestrator/Call/Others.antt =====
-- The sections of other tasks leave the consumer and the model's texts alone.
use fastapi_claude_voice_age.Base.{◌≡◌, refl, ℕ, arith, Option, none, some, List, [], ◌∷◌, ◌++◌}
use fastapi_claude_voice_age.Orchestrator.Playback.{Wake, Playback}
use fastapi_claude_voice_age.Orchestrator.Call.{
  Call, playback_wakes, former_wakes, stop_called, stop_goes_on, cancel_speak, wake_current,
  wake_former, stop, finish_stop, step,
}

-- `c'` has the consumer and the texts of `c`.
abbrev pub SameConsumer : Call → Call → Type 0
SameConsumer c c' = (c'.consumer ≡ c.consumer) × (c'.user_texts ≡ c.user_texts)

wake_former-SameConsumer :
    (passed ps : List Playback) (n : ℕ) (w : Wake) (c : Call)
    → SameConsumer c (wake_former passed ps n w c)
unfolding wake_former
wake_former-SameConsumer passed [] n w c = (refl, refl)
wake_former-SameConsumer passed (p ∷ ps) ℕ.zero w c = (refl, refl)
wake_former-SameConsumer passed (p ∷ ps) (ℕ.suc n) w c =
    wake_former-SameConsumer (passed ++ (p ∷ [])) ps n w c

wake_current-SameConsumer :
    (p : Option Playback) (w : Wake) (c : Call) → SameConsumer c (wake_current p w c)
unfolding wake_current
wake_current-SameConsumer none w c = (refl, refl)
wake_current-SameConsumer (some p) w c = (refl, refl)

pub step_playback-SameConsumer : (w : Wake) (c : Call) → SameConsumer c (step c (playback_wakes w))
unfolding step
step_playback-SameConsumer w c = wake_current-SameConsumer c.current w c

pub step_former-SameConsumer :
    (n : ℕ) (w : Wake) (c : Call) → SameConsumer c (step c (former_wakes n w))
unfolding step
step_former-SameConsumer n w c = wake_former-SameConsumer [] c.former n w c

pub step_stop-SameConsumer : (c : Call) → SameConsumer c (step c stop_called)
unfolding step stop cancel_speak
step_stop-SameConsumer c = ground arith

pub step_stop_goes_on-SameConsumer : (c : Call) → SameConsumer c (step c stop_goes_on)
unfolding step finish_stop
step_stop_goes_on-SameConsumer c = ground arith
