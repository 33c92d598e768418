-- ===== src/Gate/Tests.antt =====
-- Runs of the gate, and its theorems at concrete events.
use fastapi_claude_voice_age.Base.{ℕ, ◌+◌, ◌≤◌, ◌≡◌, refl, List, [], ◌∷◌, none, some, arith}
use fastapi_claude_voice_age.Gate.{CallGate, init, try_acquire_nowait, slot_call}
use fastapi_claude_voice_age.Gate.Semaphore
use fastapi_claude_voice_age.Gate.Semaphore.{Waiter, pending, woken, cancelled}
use fastapi_claude_voice_age.Gate.Semaphore.Permits.{granted}
use fastapi_claude_voice_age.Gate.System.{
  Event, session_opens, session_closes, stream_leaves, stream_arrives, stream_is_cancelled,
  stream_resumes, run, start,
}
use fastapi_claude_voice_age.Gate.Accounting.{run-permits, run-waiting}

abbrev one : CallGate
one = record { sem = record { value = 1; waiters = [] }; max = 1; active = 0 }

abbrev waiter : ℕ → Semaphore.Future → Waiter
waiter t f = record { task = t; future = f }

made : init 1 ≡ some one
unfolding init Semaphore.new
made = refl

no_gate : init 0 ≡ none
unfolding init
no_gate = refl

-- A browser session holds the only permit, and two streams wait; the first gives up.
abbrev contended : List Event
contended =
    session_opens ∷ session_opens ∷ stream_arrives 1 ∷ stream_arrives 2 ∷ stream_is_cancelled 1 ∷ []

contended_result : run (start one) contended ≡ record {
  gate = record {
    sem = record { value = 0; waiters = waiter 1 cancelled ∷ waiter 2 pending ∷ [] };
    max = 1;
    active = 1;
  };
  sessions = 1;
  streams = 0;
}
unfolding run start try_acquire_nowait slot_call Semaphore.acquire Semaphore.locked Semaphore.cancel
contended_result = refl

-- The session ends, the second stream takes over, and leaves.
abbrev drained : List Event
drained = session_opens ∷ stream_arrives 2 ∷ session_closes ∷ stream_resumes 2 ∷ stream_leaves ∷ []

run-permits_example :
    let s = run (start one) contended in
    (s.gate.active ≡ s.sessions + s.streams)
    × (s.gate.active ≤ 1)
    × (s.gate.sem.value + granted s.gate.sem.waiters + s.gate.active ≡ 1)
run-permits_example = run-permits 1 made contended

run-waiting_example : (run (start one) contended).sessions + (run (start one) contended).streams ≡ 1
unfolding run start try_acquire_nowait slot_call Semaphore.acquire Semaphore.locked Semaphore.cancel
run-waiting_example = run-waiting 1 made contended (omega arith) refl
