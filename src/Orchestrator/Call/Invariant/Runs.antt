-- ===== src/Orchestrator/Call/Invariant/Runs.antt =====
-- One voice at a time, and silence after `stop`, after any order of events.
use fastapi_claude_voice_age.Base.{
  ℕ, ◌≡◌, refl, subst, ap, ◌⊎◌, inl, true, false, String, List, [], ◌∷◌, ◌++◌, arith,
}
use fastapi_claude_voice_age.Python.{Result, ok, raise}
use fastapi_claude_voice_age.Orchestrator.Playback.{Transport, Wake, Playback}
use fastapi_claude_voice_age.Orchestrator.Call.{
  Heard, ended, Call, Event, transcribed, consumer_wakes, playback_wakes, former_wakes, stop_called,
  stop_goes_on, speak, start, stop, finish_stop, step, run,
}
use fastapi_claude_voice_age.Orchestrator.Call.Invariant.Steps.{
  Inv, step-Inv, wake_former-IsSilent, wake_current-IsSilent, consumer_stopped, already-Quiet,
}

abbrev ok_or : Call → Result Call → Call
ok_or c (ok a) = a
ok_or c (raise e) = c

pub start-Inv :
    (transport : Transport) (sid call_sid from_number : String)
    (connected created : Result (Unit {0})) {c : Call}
    → start transport sid call_sid from_number connected created ≡ ok c
    → Inv c
unfolding start speak
start-Inv transport sid call_sid from_number (ok u) (ok u') {c} h =
    subst Inv (ap (ok_or c) h) (record { former_silent = tt; stopped_quiet = inl refl })
start-Inv transport sid call_sid from_number (ok u) (raise e) {c} h = cc
start-Inv transport sid call_sid from_number (raise e) created {c} h = cc

pub run-Inv : (c : Call) (es : List Event) → Inv c → Inv (run c es)
unfolding run
run-Inv c [] v = v
run-Inv c (e ∷ es) v = run-Inv (step c e) es (step-Inv c e v)

-- Nothing was said or stored since, but for the end of the session, which is stored at most once.
pub record IsAtRest (c c' : Call) : Type 0 where
  pub frames : c'.frames ≡ c.frames
  pub user_texts : c'.user_texts ≡ c.user_texts
  pub stopped : c'.stopped ≡ true
  pub rows :
      ((c'.closed ≡ c.closed) × (c'.rows ≡ c.rows))
      ⊎ (((c.closed ≡ false) × (c'.closed ≡ true)) × (c'.rows ≡ c.rows ++ (ended ∷ [])))

pub IsAtRest-trans : {a b c : Call} → IsAtRest a b → IsAtRest b c → IsAtRest a c
IsAtRest-trans x y = ground arith

stopped_consumer :
    (heard : Heard) (c : Call)
    → Inv c
    → c.stopped ≡ true
    → IsAtRest c (step c (consumer_wakes heard))
stopped_consumer heard c v s =
    let (k, e) = consumer_stopped heard c (already-Quiet c v s).0 in
    rw e (record { frames = refl; user_texts = refl; stopped = s; rows = inl (refl, refl) })

stopped-step : (c : Call) (e : Event) → Inv c → c.stopped ≡ true → IsAtRest c (step c e)
unfolding step stop finish_stop
stopped-step c (transcribed text is_final) v s = ground arith
stopped-step c (consumer_wakes heard) v s = stopped_consumer heard c v s
stopped-step c (playback_wakes w) v s =
    let (q, e, silent) = wake_current-IsSilent c.current w c refl (already-Quiet c v s).1 in
    rw e (record { frames = refl; user_texts = refl; stopped = s; rows = inl (refl, refl) })
stopped-step c (former_wakes n w) v s =
    let (fs, e, silent) =
      wake_former-IsSilent [] c.former n w c tt v.former_silent v.former_silent in
    rw e (record { frames = refl; user_texts = refl; stopped = s; rows = inl (refl, refl) })
stopped-step c stop_called v s = ground arith
stopped-step c stop_goes_on v s = ground arith

pub stopped-run : (c : Call) (es : List Event) → Inv c → c.stopped ≡ true → IsAtRest c (run c es)
unfolding run
stopped-run c [] v s = record {
  frames = refl;
  user_texts = refl;
  stopped = s;
  rows = inl (refl, refl);
}
stopped-run c (e ∷ es) v s =
    let first = stopped-step c e v s in
    IsAtRest-trans first (stopped-run (step c e) es (step-Inv c e v) first.stopped)

pub stop-IsAtRest : (c : Call) → IsAtRest c (stop c)
unfolding stop
stop-IsAtRest c = ground arith

module _ (transport : Transport) (sid call_sid from_number : String)
    (connected created : Result (Unit {0})) {c : Call}
    (started : start transport sid call_sid from_number connected created ≡ ok c)
    (es : List Event) where
  reached : Inv (run c es)
  reached = run-Inv c es (start-Inv transport sid call_sid from_number connected created started)

  -- One voice at a time: if `start` returns, then after any events, when a playback other than the
  -- newest runs, whatever its await gave, it sends nothing and stores nothing: only its own state
  -- changes.
  pub run-former_wakes :
      (n : ℕ) (w : Wake)
      → (fs : List Playback) × (step (run c es) (former_wakes n w)
          ≡ record (run c es) { former = fs })
  unfolding step
  run-former_wakes n w =
      let v = reached.former_silent in
      let (fs, e, silent) = wake_former-IsSilent [] (run c es).former n w (run c es) tt v v in
      (fs, e)

  -- If `start` returns, then after any events and a call of `stop`, whatever events follow, no frame
  -- is sent, no text goes to the model, and nothing is stored but the end of the session, at most
  -- once.
  pub run-stop :
      (later : List Event) → IsAtRest (run c es) (run (step (run c es) stop_called) later)
  unfolding step
  run-stop later =
      let first = stop-IsAtRest (run c es) in
      IsAtRest-trans first (
        stopped-run (stop (run c es)) later (step-Inv (run c es) stop_called reached) first.stopped)
