-- ===== src/Routers/Connection.antt =====
-- A socket with its orchestrators: `_run_media_stream` of app/routers/twilio.py or `_run_signaling` of
-- app/routers/webrtc.py together with the tasks of each call that it starts, in any order. The loop
-- runs from one `await` to the next: `receive_text`, or the orchestrator's `start`, `on_audio_frame`
-- or `stop`.
pub mod Seats
pub mod Invariant
pub mod Marked
pub mod Ended
mod Tests
use fastapi_claude_voice_age.Base.{
  ℕ, zero, suc, String, Bool, true, false, not, ◌&&◌, Option, none, some, List, [], ◌∷◌, ◌++◌,
  if◌then◌else◌,
}
use mathlib.Core.Option
use fastapi_claude_voice_age.Python.{Json, Exn, Result, ok, raise}
use fastapi_claude_voice_age.Audio.{Encoding, ulaw, pcm16}
use fastapi_claude_voice_age.Audio
use fastapi_claude_voice_age.Orchestrator.Playback.{Transport, twilio, webrtc}
use fastapi_claude_voice_age.Orchestrator.Live.{Live}
use fastapi_claude_voice_age.Orchestrator.Live
use fastapi_claude_voice_age.Routers.Socket.{
  Opened, Received, json, bad_json, disconnect, Move, begin, audio, leave, ignore, Ending, left,
  disconnected, failed,
}

-- An orchestrator; `live` is its call, once `start` has returned, and `is_stopped` its `_stopped`,
-- which the call has as well.
pub record Seat : Type 0 where
  pub opened : Opened
  pub live : Option Live
  pub is_stopped : Bool

-- Where the loop waits: for a frame; in `start`; in `on_audio_frame`; in the `finally` clause, with
-- what it ends with; or nowhere any more.
pub data Place : Type 0 where
  receiving : Place
  starting : Opened → Place
  feeding : String → Place
  stopping over : Ending → Place

-- `current` is `orchestrator`, `former` are those that it was before.
pub record Connection : Type 0 where
  pub loop : Place
  pub current : Option Seat
  pub former : List Seat

-- What the loop's `await` gave; for `start` that is what the recognizer and the database gave, and for
-- `on_audio_frame` what the recognizer's socket does with bytes. The others are the events of the
-- calls' own tasks.
pub data Event : Type 0 where
  receives : Received → Event
  started : (connected created : Result (Unit {0})) → Event
  fed : (List ℕ → Result (Unit {0})) → Event
  stopped : Result (Unit {0}) → Event
  current_goes : Live.Event → Event
  former_goes : ℕ → Live.Event → Event

abbrev pub init : Connection
init = record { loop = receiving; current = none; former = [] }

abbrev pub encoding_of : Transport → Encoding
encoding_of twilio = ulaw
encoding_of webrtc = pcm16

abbrev pub has_one : Option Seat → Bool
has_one none = false
has_one (some s) = true

-- `stop` is called. Of an orchestrator whose `start` raised there are no tasks to stop; what its
-- recognizer, its client of the speech service and `mark_ended` then give is in the event `stopped`.
unfoldable pub call_stop : Seat → Seat
call_stop s = record s {
  is_stopped = true;
  live = Option.map (λ l. Live.step l Live.stop_called) s.live;
}

-- The `finally` clause.
unfoldable pub close : Ending → Connection → Connection
unfolding call_stop
close e c = elim c.current [
  | none ↦ record c { loop = over e }
  | some s ↦ record c { loop = stopping e; current = some (call_stop s) }
]

abbrev pub put_aside : Option Seat → List Seat → List Seat
put_aside none ss = ss
put_aside (some s) ss = s ∷ ss

-- What a frame makes the loop do, up to its next `await`.
unfoldable pub act : Result Move → Connection → Connection
unfolding close
act (raise x) c = close (failed x) c
act (ok ignore) c = c
act (ok leave) c = close left c
act (ok (begin o)) c = record c {
  loop = starting o;
  current = some (record { opened = o; live = none; is_stopped = false });
  former = put_aside c.current c.former;
}
act (ok (audio payload)) c = if has_one c.current then record c { loop = feeding payload } else c

unfoldable pub start_ended : Opened → Result Live → Connection → Connection
unfolding close
start_ended o (ok l) c = record c {
  loop = receiving;
  current = some (record { opened = o; live = some l; is_stopped = false });
}
start_ended o (raise x) c = close (failed x) c

unfoldable pub feed_ended : Result (List ℕ) → Connection → Connection
unfolding close
feed_ended (ok pcm) c = record c { loop = receiving }
feed_ended (raise x) c = close (failed x) c

-- `stop` returns only once it has marked the call as ended.
abbrev pub is_closed : Option Seat → Bool
is_closed none = true
is_closed (some s) = elim s.live [ none ↦ true | some l ↦ l.call.closed ]

-- An exception of `stop` takes the place of another.
unfoldable pub stop_ended : Ending → Result (Unit {0}) → Connection → Connection
stop_ended e (ok u) c = if is_closed c.current then record c { loop = over e } else c
stop_ended e (raise x) c = record c { loop = over (failed x) }

-- A task of a call runs; `stop` is called by the loop alone.
unfoldable pub seat_goes : Live.Event → Seat → Seat
seat_goes Live.stop_called s = s
seat_goes e s = record s { live = Option.map (λ l. Live.step l e) s.live }

unfoldable pub nth_goes : ℕ → Live.Event → List Seat → List Seat
unfolding seat_goes
nth_goes n e [] = []
nth_goes zero e (s ∷ ss) = seat_goes e s ∷ ss
nth_goes (suc n) e (s ∷ ss) = s ∷ nth_goes n e ss

-- `on_audio_frame` of the call there is.
unfoldable pub feed : Option Seat → String → (List ℕ → Result (Unit {0})) → Connection → Connection
unfolding feed_ended Audio.on_audio_frame
feed none payload send c = c
feed (some s) payload send c = elim s.live [
  | none ↦ c
  | some l ↦ feed_ended (Audio.on_audio_frame send payload (encoding_of s.opened.transport) l.stt) c
]

module _ (move : Bool → Json → Result Move) where
  unfoldable pub receive : Received → Connection → Connection
  unfolding close act
  receive disconnect c = close disconnected c
  receive bad_json c = c
  receive (json v) c = act (move (has_one c.current) v) c

  -- The loop goes on, by where it waits and what it got; other pairs do not occur.
  unfoldable pub loop_step : Place → Event → Connection → Connection
  unfolding receive start_ended feed stop_ended Live.start
  loop_step receiving (receives f) c = receive f c
  loop_step (starting o) (started connected created) c =
      start_ended o (Live.start o.transport o.stream_sid o.call_sid o.from_number connected created)
        c
  loop_step (feeding payload) (fed send) c = feed c.current payload send c
  loop_step (stopping e) (stopped r) c = stop_ended e r c
  loop_step _ e c = c

  unfoldable pub step : Connection → Event → Connection
  unfolding loop_step seat_goes nth_goes
  step c (current_goes e) = record c { current = Option.map (seat_goes e) c.current }
  step c (former_goes n e) = record c { former = nth_goes n e c.former }
  step c e = loop_step c.loop e c

  unfoldable pub run : Connection → List Event → Connection
  run c [] = c
  run c (e ∷ es) = run (step c e) es
