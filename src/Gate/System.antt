-- ===== src/Gate/System.antt =====
-- The tasks around one `CallGate`: browser sessions, which hold a permit between
-- `try_acquire_nowait` and `release` (app/routers/webrtc.py), and Twilio streams, which hold one
-- in `async with gate.slot()` (app/routers/twilio.py). Any order of the events may happen.
use fastapi_claude_voice_age.Base.{
  ℕ, ◌+◌, ◌-◌, Bool, List, [], ◌∷◌, Option, none, some, eqb, if◌then◌else◌,
}
use fastapi_claude_voice_age.Gate.{
  CallGate, try_acquire_nowait, release, slot_call, slot_resume, slot_exit,
}
use fastapi_claude_voice_age.Gate.Semaphore

-- `sessions` browser sessions and `streams` Twilio streams hold a permit.
pub record System : Type 0 where
  pub gate : CallGate
  pub sessions : ℕ
  pub streams : ℕ

pub data Event : Type 0 where
  session_opens session_closes stream_leaves : Event
  stream_arrives stream_is_cancelled stream_resumes : ℕ → Event

opened : System → Bool × CallGate → System
opened s (ok, g) = record {
  gate = g;
  sessions = if ok then s.sessions + 1 else s.sessions;
  streams = s.streams;
}

entered : System → Bool × CallGate → System
entered s (ok, g) = record {
  gate = g;
  sessions = s.sessions;
  streams = if ok then s.streams + 1 else s.streams;
}

-- `finally: gate.release()`; an exception leaves the gate as it was.
closed : System → Option CallGate → System
closed s none = s
closed s (some g) = record s { gate = g; sessions = s.sessions - 1 }

-- One section of one task that runs without a wait. Only a holder closes or leaves.
unfoldable pub step : System → Event → System
unfolding opened entered closed
step s session_opens = opened s (try_acquire_nowait s.gate)
step s session_closes = if eqb s.sessions 0 then s else closed s (release s.gate)
step s (stream_arrives t) = entered s (slot_call s.gate t)
step s (stream_is_cancelled t) =
    let g = s.gate in
    record s {
      gate = record g { sem = record g.sem { waiters = Semaphore.cancel t g.sem.waiters } };
    }
step s (stream_resumes t) = entered s (slot_resume s.gate t)
step s stream_leaves =
    if eqb s.streams 0 then s else record s { gate = slot_exit s.gate; streams = s.streams - 1 }

unfoldable pub run : System → List Event → System
unfolding step
run s [] = s
run s (e ∷ es) = run (step s e) es

-- The state after `lifespan` has made the gate.
unfoldable pub start : CallGate → System
start g = record { gate = g; sessions = 0; streams = 0 }
