-- ===== src/Orchestrator/Live/Expected.antt =====
-- How many texts of the caller the model has got and may yet get of a closed stream.
use fastapi_claude_voice_age.Base.{
  ◌≡◌, refl, inl, inr, arith, ℕ, suc, ◌≤◌, true, false, Bool-cases, String, Option, none, List, [],
  ◌∷◌, length, length-append,
}
use fastapi_claude_voice_age.Python.{Exn}
use fastapi_claude_voice_age.Orchestrator.Call
use fastapi_claude_voice_age.Orchestrator.Call.{
  Call, Consumer, listening, storing_user, closing_user, thinking, storing_reply, gone, Heard,
  ready, stream_over, answered, failed,
}
use fastapi_claude_voice_age.Orchestrator.Call.Others.{SameConsumer}
use fastapi_claude_voice_age.Orchestrator.Call.Turn.{step-consume}
use fastapi_claude_voice_age.Orchestrator.Live.{
  Live, as_call, with_call, call_step, next_transcript, consumer_section,
}

-- The texts that the model was given, with the one that is on its way to it.
abbrev given : Consumer → List String → ℕ
given (storing_user t) texts = suc (length texts)
given (closing_user t) texts = suc (length texts)
given _ texts = length texts

-- These, and one more while the consumer waits for a transcript.
abbrev expected : Consumer → List String → ℕ
expected listening texts = suc (length texts)
expected k texts = given k texts

pub given_le : (k : Consumer) (texts : List String) → given k texts ≤ expected k texts
given_le k texts = ground arith

pub expected_le : (k : Consumer) (texts : List String) → expected k texts ≤ suc (length texts)
expected_le k texts = ground arith

pub length_le : (k : Consumer) (texts : List String) → length texts ≤ expected k texts
length_le k texts = ground arith

take-given :
    (c : Call)
    → c.consumer ≡ listening
    → given (Call.take_transcript c).consumer (Call.take_transcript c).user_texts
      ≤ suc (length c.user_texts)
unfolding Call.take_transcript Call.on_transcript Call.cancel_speak
take-given c h = ground arith

consume-given :
    (k : Consumer) (h : Heard) (c : Call)
    → c.consumer ≡ k
    → given (Call.consume k h c).consumer (Call.consume k h c).user_texts ≤ expected k c.user_texts
unfolding Call.consume Call.reply Call.speak
consume-given listening ready c e = take-given c e
consume-given listening stream_over c e = omega arith
consume-given listening (answered t took) c e = ground (arith, e)
consume-given listening (failed x) c e = omega arith
consume-given (storing_user t) ready c e = omega arith
consume-given (storing_user t) (failed x) c e = omega arith
consume-given (storing_user t) stream_over c e = ground (arith, e)
consume-given (storing_user t) (answered r took) c e = ground (arith, e)
consume-given (closing_user t) ready c e = omega (arith, length-append {0} c.user_texts (t ∷ []))
consume-given (closing_user t) (failed x) c e = omega arith
consume-given (closing_user t) stream_over c e = ground (arith, e)
consume-given (closing_user t) (answered r took) c e = ground (arith, e)
consume-given thinking h c e = ground (arith, e)
consume-given (storing_reply t []) h c e = ground (arith, e)
consume-given (storing_reply t (row ∷ rows)) h c e = ground (arith, e)
consume-given (gone x) h c e = ground (arith, e)

unfoldable pub measure : Live → ℕ
measure l = expected l.call.consumer l.call.user_texts

over_step :
    (c : Call)
    → c.consumer ≡ listening
    → Call.step c (Call.consumer_wakes stream_over) ≡ record c { consumer = gone none }
unfolding Call.step Call.consume
over_step c h = ground arith

-- The generator of a closed stream ends, and no text is waited for any more.
pub next_transcript-measure :
    (l : Live)
    → l.stt.closed ≡ true
    → measure (next_transcript l) ≡ given l.call.consumer l.call.user_texts
unfolding next_transcript call_step with_call as_call measure
next_transcript-measure l h = ground (arith, over_step (as_call l))

consume-gone : (x : Option Exn) (h : Heard) (c : Call) → Call.consume (gone x) h c ≡ c
unfolding Call.consume
consume-gone x h c = ground arith

cancelled_step :
    (k : Consumer) (h : Heard) (c : Call)
    → c.consumer ≡ k
    → c.consumer_cancelled ≡ true
    → expected
        (Call.step c (Call.consumer_wakes h)).consumer
        (Call.step c (Call.consumer_wakes h)).user_texts
      ≡ length c.user_texts
unfolding Call.step
cancelled_step (gone x) h c e t =
    let same : Call.consume (gone x) h c ≡ c = consume-gone x h c in ground (arith, e, t, same)
cancelled_step k h c e t = ground (arith, e, t)

pub cancelled-measure :
    (h : Heard) (l : Live)
    → l.call.consumer_cancelled ≡ true
    → measure (call_step (Call.consumer_wakes h) l) ≤ measure l
unfolding call_step with_call as_call measure
cancelled-measure h l k = omega (
  arith,
  cancelled_step l.call.consumer h (as_call l) refl k,
  length_le l.call.consumer l.call.user_texts,
)

live_section :
    (h : Heard) (l : Live)
    → l.call.consumer_cancelled ≡ false
    → let l' = call_step (Call.consumer_wakes h) l in
      given l'.call.consumer l'.call.user_texts ≤ measure l
unfolding call_step with_call as_call measure
live_section h l k =
    rw (step-consume (as_call l) l.call.consumer h k refl)
      (consume-given l.call.consumer h (as_call l) refl)

pub consumer_section-measure :
    (h : Heard) (l : Live) → l.stt.closed ≡ true → measure (consumer_section h l) ≤ measure l
unfolding consumer_section call_step with_call
consumer_section-measure h l k = elim (Bool-cases l.call.consumer_cancelled) [
  | inl cancelled ↦ ground (arith, cancelled, cancelled-measure h l cancelled)
  | inr live ↦
      let l' : Live = call_step (Call.consumer_wakes h) l in
      let e = live_section h l live in ground (arith, live, next_transcript-measure l' k, e)
]

-- Sections that leave the consumer and its texts alone.
pub same-measure :
    (e : Call.Event) (l : Live)
    → SameConsumer (as_call l) (Call.step (as_call l) e)
    → measure (call_step e l) ≤ measure l
unfolding measure call_step with_call as_call
same-measure e l (p, q) = ground (arith, p, q)
