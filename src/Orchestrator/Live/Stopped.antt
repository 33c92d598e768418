-- ===== src/Orchestrator/Live/Stopped.antt =====
-- A call with its recognizer after `stop` was called, and that nothing else stops it.
use fastapi_claude_voice_age.Base.{
  ◌≡◌, refl, sym, subst, ◌∙◌, arith, Bool, true, false, not, ◌&&◌, String, ℕ, zero, suc, List, [],
  ◌∷◌, ◌++◌, if◌then◌else◌,
}
use fastapi_claude_voice_age.Python.{Result, ok, raise}
use fastapi_claude_voice_age.Stt
use fastapi_claude_voice_age.Orchestrator.Playback.{Transport, Wake, Playback}
use fastapi_claude_voice_age.Orchestrator.Call
use fastapi_claude_voice_age.Orchestrator.Call.{Call, Heard, ready, stream_over}
use fastapi_claude_voice_age.Orchestrator.Call.Invariant.Steps.{
  Inv, consume-Kept, wake_current-kept,
}
use fastapi_claude_voice_age.Orchestrator.Call.Invariant.Steps.{step-Inv as call-Inv}
use fastapi_claude_voice_age.Orchestrator.Call.Invariant.Runs.{
  IsAtRest, run-Inv, start-Inv, stopped-run,
}
use fastapi_claude_voice_age.Orchestrator.Live.Refinement.{step-run, start-Call}
use fastapi_claude_voice_age.Orchestrator.Live.{
  Live, Event, hears, enters, polls, consumer_wakes, playback_wakes, former_wakes, stop_called,
  stop_goes_on, close_wakes, as_call, with_call, call_step, is_listening, next_transcript,
  consumer_section, is_empty, polled, stopping, step, start,
}

pub step-Inv : (l : Live) (e : Event) → Inv (as_call l) → Inv (as_call (step l e))
step-Inv l e v = let (fs, same) = step-run l e in subst Inv (sym same) (run-Inv (as_call l) fs v)

pub start-Live :
    (transport : Transport) (stream_sid call_sid from_number : String)
    (connected created : Result (Unit {0})) (l : Live)
    → start transport stream_sid call_sid from_number connected created ≡ ok l
    → Inv (as_call l) × (l.call.stopped ≡ false)
unfolding start Call.start Call.speak Stt.connect Stt.init
start-Live transport stream_sid call_sid from_number (ok u) (ok v) l h = (
  start-Inv transport stream_sid call_sid from_number (ok u) (ok v)
      (start-Call transport stream_sid call_sid from_number (ok u) (ok v) l h),
  ground (arith, h),
)
start-Live transport stream_sid call_sid from_number (ok u) (raise e) l h =
    absurd (ground (arith, h))
start-Live transport stream_sid call_sid from_number (raise e) created l h =
    absurd (ground (arith, h))

pub step-IsAtRest :
    (l : Live) (e : Event)
    → Inv (as_call l)
    → l.call.stopped ≡ true
    → IsAtRest (as_call l) (as_call (step l e))
unfolding as_call
step-IsAtRest l e v s =
    let (fs, same) = step-run l e in
    subst (IsAtRest (as_call l)) (sym same) (stopped-run (as_call l) fs v s)

pub stopped-stop_called : (l : Live) → (step l stop_called).call.stopped ≡ true
unfolding step call_step as_call with_call Call.step Call.stop Call.cancel_speak
stopped-stop_called l = ground arith

unfoldable pub is_stop : Event → Bool
is_stop stop_called = true
is_stop _ = false

calls_stop : Call.Event → Bool
calls_stop Call.stop_called = true
calls_stop _ = false

former-running :
    (passed ps : List Playback) (n : ℕ) (w : Wake) (c : Call)
    → (Call.wake_former passed ps n w c).stopped ≡ c.stopped
unfolding Call.wake_former
former-running passed [] n w c = refl
former-running passed (p ∷ ps) zero w c = refl
former-running passed (p ∷ ps) (suc n) w c = former-running (passed ++ (p ∷ [])) ps n w c

call-running :
    (c : Call) (e : Call.Event) → calls_stop e ≡ false → Inv c → (Call.step c e).stopped ≡ c.stopped
unfolding Call.step calls_stop Call.finish_stop
call-running c (Call.transcribed text is_final) h v = refl
call-running c (Call.consumer_wakes w) h v =
    let kept = (consume-Kept c.consumer w c v.former_silent).1 in ground (arith, kept)
call-running c (Call.playback_wakes w) h v = (wake_current-kept c.current w c).1
call-running c (Call.former_wakes n w) h v = former-running [] c.former n w c
call-running c Call.stop_called h v = absurd (ground (arith, h))
call-running c Call.stop_goes_on h v = ground arith

-- From `l` to `l'` nothing stops the call.
Runs : Live → Live → Type 0
Runs l l' = Inv (as_call l) → Inv (as_call l') × (l'.call.stopped ≡ l.call.stopped)

refl-Runs : (l : Live) → Runs l l
unfolding Runs
refl-Runs l v = (v, refl)

trans-Runs : (a b c : Live) → Runs a b → Runs b c → Runs a c
unfolding Runs
trans-Runs a b c x y v = let (w, e) = x v in let (u, f) = y w in (u, f ∙ e)

call-Runs : (e : Call.Event) (l : Live) → calls_stop e ≡ false → Runs l (call_step e l)
unfolding Runs call_step as_call with_call
call-Runs e l h v = (
  call-Inv (record l.call { queue = l.stt.queue }) e v,
  call-running (record l.call { queue = l.stt.queue }) e h v,
)

either : (b : Bool) (l x y : Live) → Runs l x → Runs l y → Runs l (if b then x else y)
either true l x y p q = p
either false l x y p q = q

next_transcript-Runs : (l : Live) → Runs l (next_transcript l)
unfolding next_transcript calls_stop
next_transcript-Runs l =
    either (is_listening l.call.consumer && l.stt.closed) l
      (call_step (Call.consumer_wakes stream_over) l) l
      (call-Runs (Call.consumer_wakes stream_over) l refl) (refl-Runs l)

consumer_section-Runs : (h : Heard) (l : Live) → Runs l (consumer_section h l)
unfolding consumer_section calls_stop
consumer_section-Runs h l =
    let l' = call_step (Call.consumer_wakes h) l in
    let once = call-Runs (Call.consumer_wakes h) l refl in
    either l.call.consumer_cancelled l l' (next_transcript l') once
      (trans-Runs l l' (next_transcript l') once (next_transcript-Runs l'))

polled-Runs : (in_time : Bool) (l : Live) → Runs l (polled in_time l)
unfolding polled calls_stop
polled-Runs true l =
    either (is_empty l.stt.queue && not l.call.consumer_cancelled) l l (consumer_section ready l)
      (refl-Runs l) (consumer_section-Runs ready l)
polled-Runs false l =
    either l.call.consumer_cancelled l (call_step (Call.consumer_wakes ready) l) (next_transcript l)
      (call-Runs (Call.consumer_wakes ready) l refl) (next_transcript-Runs l)

entering-Runs : (l : Live) → Runs l (step l enters)
unfolding step calls_stop Runs as_call
entering-Runs l =
    let l' : Live = record l { entered = true } in
    either l.entered l l
      (if l.call.consumer_cancelled
        then call_step (Call.consumer_wakes ready) l'
        else next_transcript l')
      (refl-Runs l)
      (either l.call.consumer_cancelled l' (call_step (Call.consumer_wakes ready) l')
        (next_transcript l') (call-Runs (Call.consumer_wakes ready) l' refl)
        (next_transcript-Runs l'))

stopping-same :
    (k : Stt.Closer) (l : Live) → Inv (as_call l) → (stopping k l).call.stopped ≡ l.call.stopped
unfolding stopping Runs calls_stop
stopping-same Stt.idle l v = ground arith
stopping-same Stt.finished l v = (call-Runs Call.stop_goes_on l refl v).1
stopping-same _ l v = refl

-- No event but the call of `stop` stops a call.
pub step-running :
    (l : Live) (e : Event)
    → is_stop e ≡ false
    → Inv (as_call l)
    → (step l e).call.stopped ≡ l.call.stopped
unfolding step is_stop Runs calls_stop
step-running l (hears raw) h v = refl
step-running l enters h v = (entering-Runs l v).1
step-running l (polls in_time) h v =
    (either (l.entered && is_listening l.call.consumer) l (polled in_time l) l
      (polled-Runs in_time l) (refl-Runs l) v).1
step-running l (consumer_wakes w) h v =
    (either (is_listening l.call.consumer) l l (consumer_section w l) (refl-Runs l)
      (consumer_section-Runs w l) v).1
step-running l (playback_wakes w) h v = (call-Runs (Call.playback_wakes w) l refl v).1
step-running l (former_wakes n w) h v = (call-Runs (Call.former_wakes n w) l refl v).1
step-running l stop_called h v = absurd (ground (arith, h))
step-running l stop_goes_on h v = stopping-same l.stt.closer l v
step-running l (close_wakes outcome) h v = refl
