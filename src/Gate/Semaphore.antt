-- ===== src/Gate/Semaphore.antt =====
-- `asyncio.Semaphore` of Python 3.12 and 3.13, as app/concurrency.py uses it: `_value`, `locked`, `acquire`
-- and `release`, with the queue of waiting tasks.
pub mod Permits
use fastapi_claude_voice_age.Base.{
  ℕ, zero, suc, ◌+◌, ◌-◌, Bool, true, false, not, ◌||◌, List, [], ◌∷◌, ◌++◌, Option, none, some,
  eqb, any, if◌then◌else◌,
}
use mathlib.Core.Option

-- The future that a task in `acquire` awaits: `woken` has its result, `doomed` has its result and
-- its task was cancelled after that, `cancelled` was cancelled first.
pub data Future : Type 0 where
  pending woken doomed cancelled : Future

pub record Waiter : Type 0 where
  pub task : ℕ
  pub future : Future

pub record Semaphore : Type 0 where
  pub value : ℕ
  pub waiters : List Waiter

unfoldable pub new : ℕ → Semaphore
new n = record { value = n; waiters = [] }

abbrev pub is_cancelled : Waiter → Bool
is_cancelled w = elim w.future [ cancelled ↦ true | _ ↦ false ]

abbrev pub is_pending : Waiter → Bool
is_pending w = elim w.future [ pending ↦ true | _ ↦ false ]

-- A permit was taken for this waiter when it was woken.
abbrev pub is_granted : Waiter → Bool
is_granted w = elim w.future [ woken ↦ true | doomed ↦ true | _ ↦ false ]

unfoldable pub locked : Semaphore → Bool
locked s = eqb s.value 0 || any (λ w. not (is_cancelled w)) s.waiters

-- The scan of `_wake_up_next`: `none` if no waiter is pending.
pub wake_first : List Waiter → Option (List Waiter)
wake_first [] = none
wake_first (w ∷ ws) =
    if is_pending w
    then some (record w { future = woken } ∷ ws)
    else Option.map (◌∷◌ w) (wake_first ws)

pub wake_up_next : Semaphore → Semaphore
unfolding wake_first
wake_up_next s = elim (wake_first s.waiters) [
  | none ↦ s
  | some ws ↦ record { value = s.value - 1; waiters = ws }
]

-- The loop at the end of `acquire`, on a value and a queue.
pub wake_all : ℕ → List Waiter → Semaphore
unfolding wake_first
wake_all zero ws = record { value = 0; waiters = ws }
wake_all (suc n) ws = elim (wake_first ws) [
  | none ↦ record { value = suc n; waiters = ws }
  | some ws' ↦ wake_all n ws'
]

unfoldable pub release : Semaphore → Semaphore
unfolding wake_up_next
release s = wake_up_next (record s { value = s.value + 1 })

-- `acquire` up to its `await`: with `true` it has returned.
unfoldable pub acquire : Semaphore → ℕ → Bool × Semaphore
unfolding locked
acquire s task =
    if locked s
    then (
      false,
      record s { waiters = s.waiters ++ (record { task = task; future = pending } ∷ []) },
    )
    else (true, record s { value = s.value - 1 })

-- The future of a task, and the queue without it.
pub future_of : ℕ → List Waiter → Option Future
future_of t [] = none
future_of t (w ∷ ws) = if eqb w.task t then some w.future else future_of t ws

pub remove : ℕ → List Waiter → List Waiter
remove t [] = []
remove t (w ∷ ws) = if eqb w.task t then ws else w ∷ remove t ws

-- The loop runs the task again. A pending future keeps its task asleep.
unfoldable pub resume : Semaphore → ℕ → Bool × Semaphore
unfolding future_of remove wake_all
resume s task = elim (future_of task s.waiters) [
  | some woken ↦ (true, wake_all s.value (remove task s.waiters))
  | some doomed ↦ (false, wake_all (s.value + 1) (remove task s.waiters))
  | some cancelled ↦ (false, wake_all s.value (remove task s.waiters))
  | _ ↦ (false, s)
]

abbrev after_cancel : Future → Future
after_cancel pending = cancelled
after_cancel woken = doomed
after_cancel f = f

-- `task.cancel()` on a task that waits in `acquire`.
unfoldable pub cancel : ℕ → List Waiter → List Waiter
cancel t [] = []
cancel t (w ∷ ws) =
    if eqb w.task t then record w { future = after_cancel w.future } ∷ ws else w ∷ cancel t ws
