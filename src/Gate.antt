-- ===== src/Gate.antt =====
-- app/concurrency.py: the per-process cap on calls, with the part of `asyncio.Semaphore` that it uses.
-- A section of the source with no `await` is one function here, since the event loop runs it whole.
-- `_lock` is taken and given back inside such sections, so a task always finds it free.
pub mod Semaphore
pub mod System
pub mod Invariant
pub mod Accounting
mod Tests
use fastapi_claude_voice_age.Base.{
  ℕ, ◌+◌, ◌-◌, Bool, true, false, ◌||◌, Option, none, some, ltb, leb, if◌then◌else◌,
}
use Semaphore

-- `max` is `_max`: the number of permits that the semaphore starts with.
pub record CallGate : Type 0 where
  pub sem : Semaphore.Semaphore
  pub max : ℕ
  pub active : ℕ

-- `none` is the ValueError.
unfoldable pub init : ℕ → Option CallGate
unfolding Semaphore.new
init n = if ltb n 1 then none else some (record { sem = Semaphore.new n; max = n; active = 0 })

unfoldable pub try_acquire_nowait : CallGate → Bool × CallGate
unfolding Semaphore.locked
try_acquire_nowait g =
    if leb g.max g.active || Semaphore.locked g.sem
    then (false, g)
    else (true, record g { sem = record g.sem { value = g.sem.value - 1 }; active = g.active + 1 })

-- `none` is the RuntimeError.
unfoldable pub release : CallGate → Option CallGate
unfolding Semaphore.release
release g =
    if leb g.active 0
    then none
    else some (record g { sem = Semaphore.release g.sem; active = g.active - 1 })

-- `slot()` up to its first wait. With `true` the task is in the body of the `async with`.
unfoldable pub slot_call : CallGate → ℕ → Bool × CallGate
unfolding Semaphore.acquire
slot_call g task =
    let (entered, s) = Semaphore.acquire g.sem task in
    (entered, record g { sem = s; active = if entered then g.active + 1 else g.active })

-- `slot()` from the moment that the event loop runs the waiting task again. With `false` the
-- CancelledError has left `acquire`, so the counter is not reached.
unfoldable pub slot_resume : CallGate → ℕ → Bool × CallGate
unfolding Semaphore.resume
slot_resume g task =
    let (entered, s) = Semaphore.resume g.sem task in
    (entered, record g { sem = s; active = if entered then g.active + 1 else g.active })

-- The `finally` of `slot()`.
unfoldable pub slot_exit : CallGate → CallGate
unfolding Semaphore.release
slot_exit g = record g { sem = Semaphore.release g.sem; active = g.active - 1 }
