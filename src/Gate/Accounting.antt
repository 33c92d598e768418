-- ===== src/Gate/Accounting.antt =====
-- The gate's promises, after any order of events from `CallGate(n)`.
use fastapi_claude_voice_age.Base.{
  ℕ, ◌+◌, ◌-◌, ◌≤◌, ◌<◌, ◌≡◌, true, false, List, [], ◌∷◌, ◌++◌, none, some, arith, if◌then◌else◌,
  ◌↔◌,
}
use fastapi_claude_voice_age.Gate.{CallGate, init, try_acquire_nowait, release, slot_exit}
use fastapi_claude_voice_age.Gate.Semaphore
use fastapi_claude_voice_age.Gate.Semaphore.{Semaphore, pending, woken, is_cancelled}
use fastapi_claude_voice_age.Gate.Semaphore.Permits.{granted, waiting, locked-false, release_oldest}
use fastapi_claude_voice_age.Gate.System.{Event, run, start}
use fastapi_claude_voice_age.Gate.Invariant.{Inv, run-Inv}

module _ (n : ℕ) {g : CallGate} (made : init n ≡ some g) (es : List Event) where
  start-Inv : Inv n (start g)
  unfolding init start Semaphore.new
  start-Inv = ground arith

  reached : Inv n (run (start g) es)
  reached = run-Inv n (start g) es start-Inv

  -- If `CallGate(n)` does not raise, then after any events `active` is the number of browser sessions
  -- and streams that hold a permit, it is at most n, and it adds up to n with the free permits and
  -- those of woken tasks.
  pub run-permits :
      let s = run (start g) es in
      (s.gate.active ≡ s.sessions + s.streams)
      × (s.gate.active ≤ n)
      × (s.gate.sem.value + granted s.gate.sem.waiters + s.gate.active ≡ n)
  run-permits = omega (arith, reached)

  pub run-max : (run (start g) es).gate.max ≡ n
  run-max = omega (arith, reached)

  -- After any events, if a stream waits in `slot()` and no woken task has yet to run, then all n
  -- permits are held.
  pub run-waiting :
      0 < waiting (run (start g) es).gate.sem.waiters
      → granted (run (start g) es).gate.sem.waiters ≡ 0
      → (run (start g) es).sessions + (run (start g) es).streams ≡ n
  run-waiting h e = omega (arith, reached)

  -- After any events `try_acquire_nowait` refuses exactly when the semaphore is locked, so its test
  -- of `active` never refuses alone; refused, it leaves the gate as it was, and else it counts one
  -- call more and one free permit less.
  pub run-try_acquire_nowait :
      let g' = (run (start g) es).gate in
      try_acquire_nowait g' ≡ (
        if Semaphore.locked g'.sem then (false, g') else (
          true,
          record {
            sem = record { value = g'.sem.value - 1; waiters = g'.sem.waiters };
            max = n;
            active = g'.active + 1;
          },
        ))
  unfolding try_acquire_nowait
  run-try_acquire_nowait = ground (arith, reached, locked-false (run (start g) es).gate.sem)

  -- After any events `release` raises exactly when nobody holds a permit.
  pub run-release :
      let s = run (start g) es in (release s.gate ≡ none) ↔ (s.sessions + s.streams ≡ 0)
  unfolding release
  run-release = ground (arith, reached)

  -- After any events, once nobody holds a permit and the queue is empty, the gate is as it was made.
  pub run_idle :
      (run (start g) es).sessions + (run (start g) es).streams ≡ 0
      → (run (start g) es).gate.sem.waiters ≡ []
      → (run (start g) es).gate ≡ g
  unfolding init Semaphore.new
  run_idle h e = ground (arith, reached)

-- A stream that leaves while no permit is free hands its permit to the task that has waited longest:
-- no free permit appears, and nobody else in the queue changes.
pub slot_exit_oldest :
    (g : CallGate) (xs ys : List Semaphore.Waiter) (t : ℕ)
    → waiting xs ≡ 0
    → g.sem ≡ record { value = 0; waiters = xs ++ (record { task = t; future = pending } ∷ ys) }
    → (slot_exit g).sem
      ≡ record { value = 0; waiters = xs ++ (record { task = t; future = woken } ∷ ys) }
unfolding slot_exit
slot_exit_oldest g xs ys t h e = rw e (release_oldest xs ys t h)
