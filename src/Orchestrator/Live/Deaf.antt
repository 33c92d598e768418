-- ===== src/Orchestrator/Live/Deaf.antt =====
-- What a call still hears once its speech recognition has ended.
use fastapi_claude_voice_age.Base.{
  ◌≡◌, ap, inl, inr, arith, suc, ◌≤◌, Bool, true, false, ◌&&◌, Bool-cases, none, List, [], ◌∷◌,
  length, if◌then◌else◌,
}
use fastapi_claude_voice_age.Stt
use fastapi_claude_voice_age.Stt.{Raw, Stream, end_reader, reader_step, close, close_step}
use fastapi_claude_voice_age.Stt.Transcripts.{
  brings, reader_step-none, closed-reader_step, closed-close, closed-close_step,
}
use fastapi_claude_voice_age.Orchestrator.Call
use fastapi_claude_voice_age.Orchestrator.Call.{
  Call, Consumer, listening, storing_user, thinking, storing_reply, gone, Heard, ready, stream_over,
  answered, failed,
}
use fastapi_claude_voice_age.Orchestrator.Call.Others.{
  SameConsumer, step_playback-SameConsumer, step_former-SameConsumer, step_stop-SameConsumer,
  step_stop_goes_on-SameConsumer,
}
use fastapi_claude_voice_age.Orchestrator.Live.{
  Live, Event, hears, enters, polls, consumer_wakes, playback_wakes, former_wakes, stop_called,
  stop_goes_on, close_wakes, as_call, with_call, call_step, is_listening, next_transcript,
  consumer_section, polled, stopping, step, run,
}
use fastapi_claude_voice_age.Orchestrator.Live.Expected.{
  given_le, expected_le, length_le, measure, next_transcript-measure, cancelled-measure,
  consumer_section-measure, same-measure,
}

-- The stream stays closed, and no further text is expected.
Keeps : Live → Live → Type 0
Keeps l l' = (l'.stt.closed ≡ true) × (measure l' ≤ measure l)

stays : (l : Live) → l.stt.closed ≡ true → Keeps l l
unfolding Keeps
stays l h = (h, omega arith)

either : (l : Live) (b : Bool) (x y : Live) → Keeps l x → Keeps l y → Keeps l (if b then x else y)
either l true x y p q = p
either l false x y p q = q

call_step-Keeps :
    (e : Call.Event) (l : Live)
    → l.stt.closed ≡ true
    → SameConsumer (as_call l) (Call.step (as_call l) e)
    → Keeps l (call_step e l)
unfolding Keeps call_step with_call
call_step-Keeps e l h s = (h, same-measure e l s)

-- A section of the stream's own tasks.
stream-Keeps : (l : Live) (s : Stream) → s.closed ≡ true → Keeps l (record l { stt = s })
unfolding Keeps measure
stream-Keeps l s h = (h, omega arith)

next_transcript-Keeps : (l : Live) → l.stt.closed ≡ true → Keeps l (next_transcript l)
unfolding Keeps next_transcript call_step with_call measure
next_transcript-Keeps l h = (
  ground (arith, h),
  omega (arith, next_transcript-measure l h, given_le l.call.consumer l.call.user_texts),
)

cancelled-Keeps :
    (h : Heard) (l : Live)
    → l.stt.closed ≡ true
    → l.call.consumer_cancelled ≡ true
    → Keeps l (call_step (Call.consumer_wakes h) l)
unfolding Keeps call_step with_call
cancelled-Keeps h l k c = (k, cancelled-measure h l c)

consumer_section-Keeps :
    (h : Heard) (l : Live) → l.stt.closed ≡ true → Keeps l (consumer_section h l)
unfolding Keeps consumer_section next_transcript call_step with_call
consumer_section-Keeps h l k = (ground (arith, k), consumer_section-measure h l k)

polled-Keeps : (in_time : Bool) (l : Live) → l.stt.closed ≡ true → Keeps l (polled in_time l)
unfolding polled Keeps
polled-Keeps true l h = ground (arith, consumer_section-Keeps ready l h, h)
polled-Keeps false l h = elim (Bool-cases l.call.consumer_cancelled) [
  | inl c ↦ ground (arith, c, cancelled-Keeps ready l h c)
  | inr c ↦ ground (arith, c, next_transcript-Keeps l h)
]

stopping-Keeps : (k : Stt.Closer) (l : Live) → l.stt.closed ≡ true → Keeps l (stopping k l)
unfolding stopping Keeps
stopping-Keeps Stt.idle l h = ground (arith, h, stream-Keeps l (close l.stt) (closed-close l.stt))
stopping-Keeps Stt.finished l h =
    call_step-Keeps Call.stop_goes_on l h (step_stop_goes_on-SameConsumer (as_call l))
stopping-Keeps _ l h = (h, omega arith)

enters-Keeps : (l : Live) → l.stt.closed ≡ true → Keeps l (step l enters)
unfolding step Keeps measure
enters-Keeps l h =
    let l' : Live = record l { entered = true } in
    let cancelled : Live = call_step (Call.consumer_wakes ready) l' in
    let entered : Keeps l (if l.call.consumer_cancelled then cancelled else next_transcript l') =
      elim (Bool-cases l.call.consumer_cancelled) [
        | inl c ↦ ground (arith, c, cancelled-Keeps ready l' h c)
        | inr c ↦ ground (arith, c, next_transcript-Keeps l' h)
      ] in
    either l l.entered l (if l.call.consumer_cancelled then cancelled else next_transcript l')
      (stays l h) entered

step-Keeps : (l : Live) (e : Event) → l.stt.closed ≡ true → Keeps l (step l e)
unfolding step
step-Keeps l (hears raw) h = stream-Keeps l (reader_step raw l.stt) (closed-reader_step raw l.stt h)
step-Keeps l enters h = enters-Keeps l h
step-Keeps l (polls in_time) h =
    either l (l.entered && is_listening l.call.consumer) (polled in_time l) l
      (polled-Keeps in_time l h) (stays l h)
step-Keeps l (consumer_wakes heard) h =
    either l (is_listening l.call.consumer) l (consumer_section heard l) (stays l h)
      (consumer_section-Keeps heard l h)
step-Keeps l (playback_wakes w) h =
    call_step-Keeps (Call.playback_wakes w) l h (step_playback-SameConsumer w (as_call l))
step-Keeps l (former_wakes n w) h =
    call_step-Keeps (Call.former_wakes n w) l h (step_former-SameConsumer n w (as_call l))
step-Keeps l stop_called h =
    call_step-Keeps Call.stop_called l h (step_stop-SameConsumer (as_call l))
step-Keeps l stop_goes_on h = stopping-Keeps l.stt.closer l h
step-Keeps l (close_wakes outcome) h =
    stream-Keeps l (close_step outcome l.stt) (closed-close_step outcome l.stt h)

run-Keeps : (l : Live) (es : List Event) → l.stt.closed ≡ true → Keeps l (run l es)
unfolding run Keeps
run-Keeps l [] h = (h, omega arith)
run-Keeps l (e ∷ es) h =
    let first = step-Keeps l e h in
    let rest = run-Keeps (step l e) es first.0 in (rest.0, omega (arith, first.1, rest.1))

-- If the reader, which nobody has cancelled, meets a message that ends it, such as one whose JSON
-- cannot be read as it expects, then whatever happens afterwards, the model gets at most one more text
-- of the caller for the rest of the call, however many transcripts were waiting.
pub run_deaf :
    (l : Live) (raw : Raw) (es : List Event)
    → l.stt.reader ≡ Stt.reading
    → l.stt.cancelling ≡ false
    → brings raw ≡ none
    → length (run (step l (hears raw)) es).call.user_texts ≤ suc (length l.call.user_texts)
unfolding step Keeps measure end_reader
run_deaf l raw es h k b =
    let (e, ends) = reader_step-none raw l.stt h k b in
    let closed : (reader_step raw l.stt).closed ≡ true = ap (λ (s : Stream). s.closed) ends in
    let l' : Live = record l { stt = reader_step raw l.stt } in
    let after = run l' es in
    omega (
      arith,
      (run-Keeps l' es closed).1,
      length_le after.call.consumer after.call.user_texts,
      expected_le l.call.consumer l.call.user_texts,
    )
