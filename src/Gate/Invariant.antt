-- ===== src/Gate/Invariant.antt =====
-- What every event keeps: where the permits are, who holds them, and that no wake-up is lost.
use fastapi_claude_voice_age.Base.{ℕ, ◌+◌, ◌≡◌, List, [], ◌∷◌, arith}
use fastapi_claude_voice_age.Gate.{try_acquire_nowait, release, slot_call, slot_resume, slot_exit}
use fastapi_claude_voice_age.Gate.Semaphore.Permits.{
  granted, NoLostWakeup, cancel-permits, release-permits, acquire-permits, resume-permits,
  locked-false,
}
use fastapi_claude_voice_age.Gate.System.{
  System, Event, session_opens, session_closes, stream_leaves, stream_arrives, stream_is_cancelled,
  stream_resumes, step, run,
}

pub record Inv (n : ℕ) (s : System) : Type 0 where
  pub cap : s.gate.max ≡ n
  pub permits : s.gate.sem.value + granted s.gate.sem.waiters + s.gate.active ≡ n
  pub holders : s.gate.active ≡ s.sessions + s.streams
  pub wakeups : NoLostWakeup s.gate.sem

-- One event of any task, from a state in which the counts agree.
pub step-Inv : (n : ℕ) (s : System) (e : Event) → Inv n s → Inv n (step s e)
unfolding step try_acquire_nowait release slot_call slot_resume slot_exit
step-Inv n s session_opens v = ground (arith, locked-false s.gate.sem)
step-Inv n s session_closes v = ground (arith, release-permits s.gate.sem v.wakeups)
step-Inv n s stream_leaves v = ground (arith, release-permits s.gate.sem v.wakeups)
step-Inv n s (stream_arrives t) v = ground (arith, acquire-permits s.gate.sem t v.wakeups)
step-Inv n s (stream_is_cancelled t) v = ground (arith, cancel-permits t s.gate.sem.waiters)
step-Inv n s (stream_resumes t) v = ground (arith, resume-permits s.gate.sem t v.wakeups)

pub run-Inv : (n : ℕ) (s : System) (es : List Event) → Inv n s → Inv n (run s es)
unfolding run
run-Inv n s [] v = v
run-Inv n s (e ∷ es) v = run-Inv n (step s e) es (step-Inv n s e v)
