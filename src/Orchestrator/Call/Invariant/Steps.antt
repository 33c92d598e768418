-- ===== src/Orchestrator/Call/Invariant/Steps.antt =====
-- The invariant of a call, and that each event keeps it.
use fastapi_claude_voice_age.Base.{
  ℕ, ◌≡◌, refl, ◌∙◌, ◌⊎◌, inl, inr, Bool, true, false, String, Option, none, some, List, [], ◌∷◌,
  ◌++◌, map, arith, All, All-append, Bool-cases,
}
use mathlib.Core.Option
use mathlib.Core.List.{append-nil}
use fastapi_claude_voice_age.Python.{is_blank}
use fastapi_claude_voice_age.Llm.{TurnResult}
use fastapi_claude_voice_age.Orchestrator.Playback.{Wake, Playback, cancel, resume}
use fastapi_claude_voice_age.Orchestrator.Playback.Cancel.{
  IsSilent, cancel-IsSilent, resume-IsSilent,
}
use fastapi_claude_voice_age.Orchestrator.Call.{
  Consumer, listening, storing_user, closing_user, thinking, storing_reply, gone, Heard, ready,
  stream_over, answered, failed, Call, Event, transcribed, consumer_wakes, playback_wakes,
  former_wakes, stop_called, stop_goes_on, cancel_speak, to_list, speak, take_transcript, reply,
  consume, wake_current, wake_former, stop, is_gone, finish_stop, step,
}

-- A call whose `stop` was called: its tasks are cancelled, and nothing that runs can speak.
abbrev pub Quiet : Call → Type 0
Quiet c = (c.consumer_cancelled ≡ true) × All IsSilent (to_list c.current)

-- Only the newest playback can be heard; after `stop`, none.
pub record Inv (c : Call) : Type 0 where
  pub former_silent : All IsSilent c.former
  pub stopped_quiet : (c.stopped ≡ false) ⊎ Quiet c

cancelled-IsSilent : (p : Option Playback) → All IsSilent (map cancel (to_list p))
cancelled-IsSilent none = tt
cancelled-IsSilent (some p) = (cancel-IsSilent p, tt)

map-cancel-IsSilent : (p : Option Playback) → All IsSilent (to_list (Option.map cancel p))
map-cancel-IsSilent none = tt
map-cancel-IsSilent (some p) = (cancel-IsSilent p, tt)

-- A former playback that runs changes the list of former playbacks alone.
pub wake_former-IsSilent :
    (passed ps : List Playback) (n : ℕ) (w : Wake) (c : Call)
    → All IsSilent passed
    → All IsSilent ps
    → All IsSilent c.former
    → (fs : List Playback) × (wake_former passed ps n w c ≡ record c { former = fs })
      × All IsSilent fs
unfolding wake_former
wake_former-IsSilent passed [] n w c hp hs hc = (c.former, refl, hc)
wake_former-IsSilent passed (p ∷ ps) ℕ.zero w c hp hs hc =
    let r = resume c.transport c.stream_sid p w in
    let quiet = resume-IsSilent c.transport c.stream_sid p w hs.0 in
    (
      passed ++ (r.task ∷ ps),
      rw (quiet.0, quiet.1, append-nil c.frames, append-nil c.rows) refl,
      All-append IsSilent passed (r.task ∷ ps) hp (inl quiet.2, hs.1),
    )
wake_former-IsSilent passed (p ∷ ps) (ℕ.suc n) w c hp hs hc =
    wake_former-IsSilent (passed ++ (p ∷ [])) ps n w c
      (All-append IsSilent passed (p ∷ []) hp (hs.0, tt)) hs.1 hc

-- So does the newest one, once it is silent.
pub wake_current-IsSilent :
    (p : Option Playback) (w : Wake) (c : Call)
    → c.current ≡ p
    → All IsSilent (to_list p)
    → (q : Option Playback) × (wake_current p w c ≡ record c { current = q })
      × All IsSilent (to_list q)
unfolding wake_current
wake_current-IsSilent none w c e h = (none, λ i. record c { current = e i }, tt)
wake_current-IsSilent (some p) w c e h =
    let r = resume c.transport c.stream_sid p w in
    let quiet = resume-IsSilent c.transport c.stream_sid p w h.0 in
    (
      some r.task,
      rw (quiet.0, quiet.1, append-nil c.frames, append-nil c.rows) refl,
      (inl quiet.2, tt),
    )

-- What a section of the consumer keeps: it makes a playback former only with a cancellation.
abbrev pub Kept : Call → Call → Type 0
Kept c c' = All IsSilent c'.former × (c'.stopped ≡ c.stopped)

speak-Kept :
    (text : String) (persist : Bool) (c : Call)
    → All IsSilent c.former
    → Kept c (speak text persist c)
unfolding speak
speak-Kept text persist c h = (
  All-append IsSilent (map cancel (to_list c.current)) c.former (cancelled-IsSilent c.current) h,
  refl,
)

reply-Kept : (t : TurnResult) (c : Call) → All IsSilent c.former → Kept c (reply t c)
unfolding reply
reply-Kept t c h = elim (Bool-cases (is_blank t.text)) [
  | inl e ↦ rw (e, reply) (h, refl)
  | inr e ↦ rw (e, reply) (speak-Kept t.text false (record c { consumer = listening }) h)
]

take_transcript-Kept : (c : Call) → All IsSilent c.former → Kept c (take_transcript c)
unfolding take_transcript
take_transcript-Kept c h = ground arith

pub consume-Kept :
    (k : Consumer) (heard : Heard) (c : Call) → All IsSilent c.former → Kept c (consume k heard c)
unfolding consume
consume-Kept listening ready c h = take_transcript-Kept c h
consume-Kept listening stream_over c h = (h, refl)
consume-Kept listening (answered t took) c h = (h, refl)
consume-Kept listening (failed e) c h = (h, refl)
consume-Kept (storing_user text) ready c h = (h, refl)
consume-Kept (storing_user text) (failed e) c h = (h, refl)
consume-Kept (storing_user text) _ c h = (h, refl)
consume-Kept (closing_user text) ready c h = (h, refl)
consume-Kept (closing_user text) (failed e) c h = (h, refl)
consume-Kept (closing_user text) _ c h = (h, refl)
consume-Kept thinking (answered t took) c h = (h, refl)
consume-Kept thinking (failed e) c h = (h, refl)
consume-Kept thinking _ c h = (h, refl)
consume-Kept (storing_reply t (row ∷ rest)) ready c h = (h, refl)
consume-Kept (storing_reply t []) ready c h = reply-Kept t c h
consume-Kept (storing_reply t rows) (failed e) c h = (h, refl)
consume-Kept (storing_reply t rows) _ c h = (h, refl)
consume-Kept (gone e) heard c h = (h, refl)

consume_gone : (k : Consumer) (heard : Heard) (c : Call) → is_gone k ≡ true → consume k heard c ≡ c
unfolding consume
consume_gone (gone e) heard c h = refl
consume_gone listening heard c h = cc
consume_gone (storing_user text) heard c h = cc
consume_gone (closing_user text) heard c h = cc
consume_gone thinking heard c h = cc
consume_gone (storing_reply t rows) heard c h = cc

-- After `stop` a section of the consumer ends it, or finds it at its end.
pub consumer_stopped :
    (heard : Heard) (c : Call)
    → c.consumer_cancelled ≡ true
    → (k : Consumer) × (step c (consumer_wakes heard) ≡ record c { consumer = k })
unfolding step
consumer_stopped heard c h = elim (Bool-cases (is_gone c.consumer)) [
  | inl e ↦ (c.consumer, ground (arith, consume_gone c.consumer heard c e))
  | inr e ↦ (gone none, ground arith)
]

consumer-Inv : (heard : Heard) (c : Call) → Inv c → Inv (step c (consumer_wakes heard))
consumer-Inv heard c v = elim v.stopped_quiet [
  | inl running ↦
      let kept = consume-Kept c.consumer heard c v.former_silent in
      record {
        former_silent = unfold step in ground arith;
        stopped_quiet = unfold step in inl (ground arith);
      }
  | inr quiet ↦
      let (k, e) = consumer_stopped heard c quiet.0 in
      rw e (record { former_silent = v.former_silent; stopped_quiet = inr quiet })
]

pub wake_current-kept :
    (p : Option Playback) (w : Wake) (c : Call)
    → ((wake_current p w c).former ≡ c.former) × ((wake_current p w c).stopped ≡ c.stopped)
unfolding wake_current
wake_current-kept none w c = (refl, refl)
wake_current-kept (some p) w c = (refl, refl)

playback-Inv : (w : Wake) (c : Call) → Inv c → Inv (wake_current c.current w c)
playback-Inv w c v = elim v.stopped_quiet [
  | inl running ↦
      let kept = wake_current-kept c.current w c in
      record { former_silent = rw kept.0 v.former_silent; stopped_quiet = inl (kept.1 ∙ running) }
  | inr quiet ↦
      let (q, e, silent) = wake_current-IsSilent c.current w c refl quiet.1 in
      rw e (record { former_silent = v.former_silent; stopped_quiet = inr (quiet.0, silent) })
]

former-Inv : (n : ℕ) (w : Wake) (c : Call) → Inv c → Inv (wake_former [] c.former n w c)
former-Inv n w c v =
    let (fs, e, silent) =
      wake_former-IsSilent [] c.former n w c tt v.former_silent v.former_silent in
    rw e (record { former_silent = silent; stopped_quiet = v.stopped_quiet })

pub already-Quiet : (c : Call) → Inv c → c.stopped ≡ true → Quiet c
already-Quiet c v e = elim v.stopped_quiet [ inl running ↦ cc | inr quiet ↦ quiet ]

stop-Inv : (c : Call) → Inv c → Inv (stop c)
unfolding stop cancel_speak
stop-Inv c v = elim (Bool-cases c.stopped) [
  | inl e ↦
      rw (e, stop)
        (record { former_silent = v.former_silent; stopped_quiet = inr (already-Quiet c v e) })
  | inr e ↦
      rw (e, stop)
        (record {
          former_silent = v.former_silent;
          stopped_quiet = inr (refl, map-cancel-IsSilent c.current);
        })
]

finish_stop-Inv : (c : Call) → Inv c → Inv (finish_stop c)
unfolding finish_stop
finish_stop-Inv c v = ground arith

pub step-Inv : (c : Call) (e : Event) → Inv c → Inv (step c e)
unfolding step
step-Inv c (transcribed text is_final) v = record {
  former_silent = v.former_silent;
  stopped_quiet = v.stopped_quiet;
}
step-Inv c (consumer_wakes heard) v = consumer-Inv heard c v
step-Inv c (playback_wakes w) v = playback-Inv w c v
step-Inv c (former_wakes n w) v = former-Inv n w c v
step-Inv c stop_called v = stop-Inv c v
step-Inv c stop_goes_on v = finish_stop-Inv c v
