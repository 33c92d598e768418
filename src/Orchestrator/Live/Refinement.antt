-- ===== src/Orchestrator/Live/Refinement.antt =====
-- A call with its own speech recognition is a call of Orchestrator/Call: `as_call` forgets the rest.
use fastapi_claude_voice_age.Base.{
  ◌≡◌, refl, ap, sym, ◌∙◌, arith, inl, inr, Bool, true, false, not, ◌&&◌, String, List, [], ◌∷◌,
  ◌++◌, if◌then◌else◌,
}
use fastapi_claude_voice_age.Python.{Result, ok, raise}
use fastapi_claude_voice_age.Stt
use fastapi_claude_voice_age.Stt.Transcripts.{reader_step-queue}
use fastapi_claude_voice_age.Stt.{
  Raw, Stream, reader_step, close, close_step, on_raw, on_parsed, read, parse, to_list,
}
use fastapi_claude_voice_age.Orchestrator.Playback.{Transport}
use fastapi_claude_voice_age.Orchestrator.Call
use fastapi_claude_voice_age.Orchestrator.Call.{Call, Heard, ready, stream_over}
use fastapi_claude_voice_age.Orchestrator.Live.{
  Live, Event, hears, enters, polls, consumer_wakes, playback_wakes, former_wakes, stop_called,
  stop_goes_on, close_wakes, as_call, with_call, call_step, is_listening, next_transcript,
  consumer_section, is_empty, polled, stopping, step, run, start,
}

-- The call goes from `c` to `c'` by events of its own.
Goes : Call → Call → Type 0
Goes c c' = (es : List Call.Event) × (c' ≡ Call.run c es)

stays : (c : Call) → Goes c c
unfolding Goes Call.run
stays c = ([], refl)

run-append :
    (c : Call) (es fs : List Call.Event) → Call.run c (es ++ fs) ≡ Call.run (Call.run c es) fs
unfolding Call.run
run-append c [] fs = refl
run-append c (e ∷ es) fs = run-append (Call.step c e) es fs

trans-Goes : (a b c : Call) → Goes a b → Goes b c → Goes a c
unfolding Goes
trans-Goes a b c (es, e) (fs, f) =
    (es ++ fs, f ∙ (ap (λ x. Call.run x fs) e ∙ sym (run-append a es fs)))

one_step : (e : Call.Event) (l : Live) → Goes (as_call l) (as_call (call_step e l))
unfolding Goes call_step as_call with_call Call.run
one_step e l = (e ∷ [], refl)

either :
    (c : Call) (b : Bool) (x y : Live)
    → Goes c (as_call x)
    → Goes c (as_call y)
    → Goes c (as_call (if b then x else y))
either c true x y p q = p
either c false x y p q = q

next_transcript-Goes : (l : Live) → Goes (as_call l) (as_call (next_transcript l))
unfolding next_transcript
next_transcript-Goes l =
    either (as_call l) (is_listening l.call.consumer && l.stt.closed)
      (call_step (Call.consumer_wakes stream_over) l) l
      (one_step (Call.consumer_wakes stream_over) l) (stays (as_call l))

consumer_section-Goes : (h : Heard) (l : Live) → Goes (as_call l) (as_call (consumer_section h l))
unfolding consumer_section
consumer_section-Goes h l =
    let l' = call_step (Call.consumer_wakes h) l in
    either (as_call l) l.call.consumer_cancelled l' (next_transcript l')
      (one_step (Call.consumer_wakes h) l)
      (trans-Goes (as_call l) (as_call l') (as_call (next_transcript l'))
        (one_step (Call.consumer_wakes h) l) (next_transcript-Goes l'))

polled-Goes : (in_time : Bool) (l : Live) → Goes (as_call l) (as_call (polled in_time l))
unfolding polled
polled-Goes true l =
    either (as_call l) (is_empty l.stt.queue && not l.call.consumer_cancelled) l
      (consumer_section ready l) (stays (as_call l)) (consumer_section-Goes ready l)
polled-Goes false l =
    either (as_call l) l.call.consumer_cancelled (call_step (Call.consumer_wakes ready) l)
      (next_transcript l) (one_step (Call.consumer_wakes ready) l) (next_transcript-Goes l)

-- What touches neither the call nor the queue is no event of the call.
same_queue :
    (l : Live) (s : Stream)
    → s.queue ≡ l.stt.queue
    → Goes (as_call l) (as_call (record l { stt = s }))
unfolding Goes as_call Call.run
same_queue l s e = ([], ap (λ q. record l.call { queue = q }) e)

queue-close : (s : Stream) → (close s).queue ≡ s.queue
unfolding close
queue-close s = ground arith

queue-close_step :
    (outcome : Result (Unit {0})) (s : Stream) → (close_step outcome s).queue ≡ s.queue
unfolding close_step
queue-close_step outcome s = ground arith

stopping-Goes : (k : Stt.Closer) (l : Live) → Goes (as_call l) (as_call (stopping k l))
unfolding stopping
stopping-Goes Stt.idle l =
    either (as_call l)
      (l.call.stopped && not (Call.is_speaking l.call) && Call.is_gone l.call.consumer)
      (record l { stt = close l.stt }) l (same_queue l (close l.stt) (queue-close l.stt))
      (stays (as_call l))
stopping-Goes Stt.finished l = one_step Call.stop_goes_on l
stopping-Goes _ l = stays (as_call l)

-- The reader puts at most one transcript into the queue.
reader_step-Goes :
    (raw : Raw) (l : Live) → Goes (as_call l) (as_call (record l { stt = reader_step raw l.stt }))
unfolding Goes as_call Call.run Call.step
reader_step-Goes raw l = elim (reader_step-queue raw l.stt) [
  | inl e ↦ ([], ap (λ q. record l.call { queue = q }) e)
  | inr ((text, is_final), e) ↦
      (Call.transcribed text is_final ∷ [], ap (λ q. record l.call { queue = q }) e)
]

first_section-Goes : (l : Live) → Goes (as_call l) (as_call (step l enters))
unfolding step as_call
first_section-Goes l =
    let l' : Live = record l { entered = true } in
    let cancelled : Live = call_step (Call.consumer_wakes ready) l' in
    either (as_call l) l.entered l
      (if l.call.consumer_cancelled then cancelled else next_transcript l') (stays (as_call l))
      (either (as_call l) l.call.consumer_cancelled cancelled (next_transcript l')
        (one_step (Call.consumer_wakes ready) l') (next_transcript-Goes l'))

step-Goes : (l : Live) (e : Event) → Goes (as_call l) (as_call (step l e))
unfolding step
step-Goes l (hears raw) = reader_step-Goes raw l
step-Goes l enters = first_section-Goes l
step-Goes l (polls in_time) =
    either (as_call l) (l.entered && is_listening l.call.consumer) (polled in_time l) l
      (polled-Goes in_time l) (stays (as_call l))
step-Goes l (consumer_wakes h) =
    either (as_call l) (is_listening l.call.consumer) l (consumer_section h l) (stays (as_call l))
      (consumer_section-Goes h l)
step-Goes l (playback_wakes w) = one_step (Call.playback_wakes w) l
step-Goes l (former_wakes n w) = one_step (Call.former_wakes n w) l
step-Goes l stop_called = one_step Call.stop_called l
step-Goes l stop_goes_on = stopping-Goes l.stt.closer l
step-Goes l (close_wakes outcome) =
    same_queue l (close_step outcome l.stt) (queue-close_step outcome l.stt)

-- A step of the call with its recognizer, as events of the call.
pub step-run :
    (l : Live) (e : Event) → (fs : List Call.Event) × (as_call (step l e) ≡ Call.run (as_call l) fs)
unfolding Goes
step-run l e = step-Goes l e

run-Goes : (l : Live) (es : List Event) → Goes (as_call l) (as_call (run l es))
unfolding run
run-Goes l [] = stays (as_call l)
run-Goes l (e ∷ es) =
    trans-Goes (as_call l) (as_call (step l e)) (as_call (run (step l e) es)) (step-Goes l e)
      (run-Goes (step l e) es)

pub start-Call :
    (transport : Transport) (stream_sid call_sid from_number : String)
    (connected created : Result (Unit {0})) (l : Live)
    → start transport stream_sid call_sid from_number connected created ≡ ok l
    → Call.start transport stream_sid call_sid from_number connected created ≡ ok (as_call l)
unfolding start Call.start Call.speak Stt.connect Stt.init as_call
start-Call transport stream_sid call_sid from_number (ok u) (ok v) l h = ground (arith, h)
start-Call transport stream_sid call_sid from_number (ok u) (raise e) l h = ground (arith, h)
start-Call transport stream_sid call_sid from_number (raise e) created l h = ground (arith, h)

-- If `start` returns, then it does so in Orchestrator/Call too, and after any events of the call and
-- its speech recognition, the call with the queue of its stream is one that events of
-- Orchestrator/Call lead to: what holds there of every run holds of a call with its own recognizer.
pub run-refines :
    (transport : Transport) (stream_sid call_sid from_number : String)
    (connected created : Result (Unit {0})) (l : Live) (es : List Event)
    → start transport stream_sid call_sid from_number connected created ≡ ok l
    → (c : Call) × (fs : List Call.Event) × (Call.start transport stream_sid call_sid from_number
          connected created
        ≡ ok c)
      × (as_call (run l es) ≡ Call.run c fs)
unfolding Goes
run-refines transport stream_sid call_sid from_number connected created l es h =
    let (fs, e) = run-Goes l es in
    (as_call l, fs, start-Call transport stream_sid call_sid from_number connected created l h, e)
