-- ===== src/Orchestrator/Live.antt =====
-- A call with its own speech recognition: the tasks of app/pipeline/orchestrator.py together with the
-- reader, the generator `transcripts` and `close` of app/pipeline/stt_deepgram.py. The queue of the
-- stream is the queue of the call.
pub mod Refinement
pub mod Expected
pub mod Deaf
pub mod Stopped
mod Tests
use fastapi_claude_voice_age.Base.{
  ℕ, Bool, true, false, not, ◌&&◌, String, List, [], ◌∷◌, if◌then◌else◌,
}
use fastapi_claude_voice_age.Python.{Exn, Result, ok, raise, ◌>>=◌}
use fastapi_claude_voice_age.Stt.{Raw, Stream, Closer, reader_step, close, close_step}
use fastapi_claude_voice_age.Stt
use fastapi_claude_voice_age.Orchestrator.Playback.{Transport, Wake}
use fastapi_claude_voice_age.Orchestrator.Call.{
  Consumer, listening, storing_user, thinking, storing_reply, gone, Heard, ready, stream_over, Call,
  is_speaking, is_gone,
}
use fastapi_claude_voice_age.Orchestrator.Call

-- `entered` says that the consumer has run at all.
pub record Live : Type 0 where
  pub call : Call
  pub stt : Stream
  pub entered : Bool

-- `hears` is the reader's; `enters`, `polls` and `consumer_wakes` are the consumer's: its first
-- section, the end of `wait_for` in `transcripts`, with a transcript or with a TimeoutError, and the
-- end of another of its waits. `stop_goes_on` and `close_wakes` are those of `stop`.
pub data Event : Type 0 where
  hears : Raw → Event
  enters : Event
  polls : (in_time : Bool) → Event
  consumer_wakes : Heard → Event
  playback_wakes : Wake → Event
  former_wakes : (n : ℕ) → Wake → Event
  stop_called stop_goes_on : Event
  close_wakes : Result (Unit {0}) → Event

-- The call with the queue that its stream has, and back.
unfoldable pub as_call : Live → Call
as_call l = record l.call { queue = l.stt.queue }

unfoldable pub with_call : Call → Live → Live
with_call c l = record l { call = c; stt = record l.stt { queue = c.queue } }

unfoldable pub call_step : Call.Event → Live → Live
unfolding as_call with_call
call_step e l = with_call (Call.step (as_call l) e) l

abbrev pub is_listening : Consumer → Bool
is_listening listening = true
is_listening _ = false

-- The test `while not self._closed.is_set()`, to which the generator comes back: if the stream is
-- closed, the `async for` of the consumer is over.
unfoldable pub next_transcript : Live → Live
unfolding call_step
next_transcript l =
    if is_listening l.call.consumer && l.stt.closed
    then call_step (Call.consumer_wakes stream_over) l
    else l

-- A section of the consumer that runs on to the generator, unless it was cancelled.
unfoldable pub consumer_section : Heard → Live → Live
unfolding call_step next_transcript
consumer_section h l =
    if l.call.consumer_cancelled
    then call_step (Call.consumer_wakes h) l
    else next_transcript (call_step (Call.consumer_wakes h) l)

abbrev pub is_empty : List (String × Bool) → Bool
is_empty [] = true
is_empty (t ∷ ts) = false

-- `wait_for` ends with the transcript that `get` takes, or after a second.
polled : Bool → Live → Live
unfolding consumer_section next_transcript call_step
polled true l =
    if is_empty l.stt.queue && not l.call.consumer_cancelled then l else consumer_section ready l
polled false l =
    if l.call.consumer_cancelled then call_step (Call.consumer_wakes ready) l else next_transcript l

-- `stop` after its two tasks: `close` of the stream, and once that is done `mark_ended`.
stopping : Closer → Live → Live
unfolding call_step
stopping Stt.idle l =
    if l.call.stopped && not (is_speaking l.call) && is_gone l.call.consumer
    then record l { stt = close l.stt }
    else l
stopping Stt.finished l = call_step Call.stop_goes_on l
stopping _ l = l

unfoldable pub step : Live → Event → Live
unfolding call_step next_transcript consumer_section polled stopping
step l (hears raw) = record l { stt = reader_step raw l.stt }
step l enters =
    let l' = record l { entered = true } in
    if l.entered
    then l
    else if l.call.consumer_cancelled
    then call_step (Call.consumer_wakes ready) l'
    else next_transcript l'
step l (polls in_time) = if l.entered && is_listening l.call.consumer then polled in_time l else l
step l (consumer_wakes h) = if is_listening l.call.consumer then l else consumer_section h l
step l (playback_wakes w) = call_step (Call.playback_wakes w) l
step l (former_wakes n w) = call_step (Call.former_wakes n w) l
step l stop_called = call_step Call.stop_called l
step l stop_goes_on = stopping l.stt.closer l
step l (close_wakes outcome) = record l { stt = close_step outcome l.stt }

unfoldable pub run : Live → List Event → Live
run l [] = l
run l (e ∷ es) = run (step l e) es

-- `start`, where `connected` and `created` are what the socket and the database gave.
unfoldable pub start :
    Transport → String → String → String → Result (Unit {0}) → Result (Unit {0}) → Result Live
start transport stream_sid call_sid from_number connected created = do
  stt ← Stt.connect connected Stt.init
  call ← Call.start transport stream_sid call_sid from_number connected created
  ok (record { call = call; stt = stt; entered = false })
