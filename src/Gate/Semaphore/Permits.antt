-- ===== src/Gate/Semaphore/Permits.antt =====
-- Where the permits of the semaphore are, and that no wake-up is lost.
use fastapi_claude_voice_age.Base.{
  ℕ, zero, suc, ◌+◌, ◌<◌, ◌≡◌, refl, ◌⊎◌, inl, inr, Bool, true, false, List, [], ◌∷◌, ◌++◌, none,
  some, arith, tally, any, not, Option-cases,
}
use fastapi_claude_voice_age.Gate.Semaphore.{
  Semaphore, Waiter, Future, pending, woken, doomed, cancelled, is_pending, is_granted,
  is_cancelled, wake_first, wake_up_next, wake_all, future_of, remove, release, acquire, resume,
  cancel, locked,
}

-- The tasks that have a permit and have not run since, and those that still wait for one.
abbrev pub granted : List Waiter → ℕ
granted = tally is_granted

abbrev pub waiting : List Waiter → ℕ
waiting = tally is_pending

-- A free permit and a waiting task stand side by side only while a woken task has yet to run.
abbrev pub NoLostWakeup : Semaphore → Type 0
NoLostWakeup s = (s.value ≡ 0) ⊎ (waiting s.waiters ≡ 0) ⊎ (0 < granted s.waiters)

wake_first-tally :
    (ws : List Waiter) {ws' : List Waiter}
    → wake_first ws ≡ some ws'
    → (granted ws' ≡ suc (granted ws)) × (waiting ws ≡ suc (waiting ws'))
unfolding wake_first
wake_first-tally [] h = cc
wake_first-tally (w ∷ ws) h = elim (Option-cases (wake_first ws)) [
  | inl e ↦ ground arith
  | inr (r, e) ↦ ground (arith, wake_first-tally ws e)
]

wake_first-none : (ws : List Waiter) → wake_first ws ≡ none → waiting ws ≡ 0
unfolding wake_first
wake_first-none [] h = refl
wake_first-none (w ∷ ws) h = ground (arith, wake_first-none ws)

-- The loop gives out permits and makes none; it stops with no permit or with nobody waiting.
wake_all-permits :
    (n : ℕ) (ws : List Waiter)
    → let s = wake_all n ws in
      (s.value + granted s.waiters ≡ n + granted ws) × ((s.value ≡ 0) ⊎ (waiting s.waiters ≡ 0))
unfolding wake_all
wake_all-permits zero ws = (omega arith, inl refl)
wake_all-permits (suc n) ws = elim (Option-cases (wake_first ws)) [
  | inl e ↦ ground (arith, wake_first-none ws e)
  | inr (ws', e) ↦ ground (arith, wake_all-permits n ws', wake_first-tally ws e)
]

abbrev permit_of : Future → ℕ
permit_of woken = 1
permit_of doomed = 1
permit_of _ = 0

remove-granted :
    (t : ℕ) (ws : List Waiter) {f : Future}
    → future_of t ws ≡ some f
    → granted ws ≡ permit_of f + granted (remove t ws)
unfolding future_of remove
remove-granted t [] h = cc
remove-granted t (w ∷ ws) {f = pending} h = ground (arith, remove-granted t ws {f = pending})
remove-granted t (w ∷ ws) {f = woken} h = ground (arith, remove-granted t ws {f = woken})
remove-granted t (w ∷ ws) {f = doomed} h = ground (arith, remove-granted t ws {f = doomed})
remove-granted t (w ∷ ws) {f = cancelled} h = ground (arith, remove-granted t ws {f = cancelled})

-- A cancelled task neither gains nor loses its permit, and waits no more.
pub cancel-permits :
    (t : ℕ) (ws : List Waiter)
    → (granted (cancel t ws) ≡ granted ws) × ((waiting ws ≡ 0) → waiting (cancel t ws) ≡ 0)
unfolding cancel
cancel-permits t [] = (refl, λ _. refl)
cancel-permits t (w ∷ ws) = ground (arith, cancel-permits t ws)

-- `release` adds one permit and hands it to a waiting task, if there is one.
pub release-permits :
    (s : Semaphore)
    → NoLostWakeup s
    → let r = release s in
      (r.value + granted r.waiters ≡ s.value + granted s.waiters + 1) × NoLostWakeup r
unfolding release wake_up_next
release-permits s h = elim (Option-cases (wake_first s.waiters)) [
  | inl e ↦ ground (arith, wake_first-none s.waiters e)
  | inr (ws', e) ↦ ground (arith, wake_first-tally s.waiters e)
]

abbrev pub owed : Bool → ℕ
owed true = 1
owed false = 0

-- With nobody but cancelled tasks in the queue, nobody waits.
locked-waiting : (ws : List Waiter) → any (λ w. not (is_cancelled w)) ws ≡ false → waiting ws ≡ 0
locked-waiting [] h = refl
locked-waiting (w ∷ ws) h = ground (arith, locked-waiting ws)

pub locked-false : (s : Semaphore) → locked s ≡ false → (0 < s.value) × (waiting s.waiters ≡ 0)
unfolding locked
locked-false s h = ground (arith, locked-waiting s.waiters)

-- A queue in which nobody waits and not everyone is cancelled holds a woken task.
locked-granted :
    (ws : List Waiter) → any (λ w. not (is_cancelled w)) ws ≡ true → waiting ws ≡ 0 → 0 < granted ws
locked-granted [] h e = cc
locked-granted (w ∷ ws) h e = ground (arith, locked-granted ws)

enqueue-granted :
    (t : ℕ) (ws : List Waiter)
    → granted (ws ++ (record { task = t; future = pending } ∷ [])) ≡ granted ws
enqueue-granted t [] = refl
enqueue-granted t (w ∷ ws) = ground (arith, enqueue-granted t ws)

-- `acquire` takes one permit, or puts the task at the end of the queue.
pub acquire-permits :
    (s : Semaphore) (t : ℕ)
    → NoLostWakeup s
    → let (entered, r) = acquire s t in
      (r.value + granted r.waiters + owed entered ≡ s.value + granted s.waiters) × NoLostWakeup r
unfolding acquire locked
acquire-permits s t h =
    ground (arith, enqueue-granted t s.waiters, locked-granted s.waiters, locked-waiting s.waiters)

-- A task that runs again leaves the queue with its permit, or gives that back.
pub resume-permits :
    (s : Semaphore) (t : ℕ)
    → NoLostWakeup s
    → let (entered, r) = resume s t in
      (r.value + granted r.waiters + owed entered ≡ s.value + granted s.waiters) × NoLostWakeup r
unfolding resume
resume-permits s t h = elim (Option-cases (future_of t s.waiters)) [
  | inl e ↦ ground arith
  | inr (woken, e) ↦
      ground (arith, remove-granted t s.waiters e, wake_all-permits s.value (remove t s.waiters))
  | inr (pending, e) ↦ ground arith
  | inr (doomed, e) ↦
      ground
        (arith, remove-granted t s.waiters e, wake_all-permits (s.value + 1) (remove t s.waiters))
  | inr (cancelled, e) ↦
      ground (arith, remove-granted t s.waiters e, wake_all-permits s.value (remove t s.waiters))
]

wake_first-oldest :
    (xs ys : List Waiter) (t : ℕ)
    → waiting xs ≡ 0
    → wake_first (xs ++ (record { task = t; future = pending } ∷ ys))
      ≡ some (xs ++ (record { task = t; future = woken } ∷ ys))
unfolding wake_first
wake_first-oldest [] ys t h = refl
wake_first-oldest (x ∷ xs) ys t h = ground (arith, wake_first-oldest xs ys t)

-- With no free permit, `release` wakes the first task that waits.
pub release_oldest :
    (xs ys : List Waiter) (t : ℕ)
    → waiting xs ≡ 0
    → release (record { value = 0; waiters = xs ++ (record { task = t; future = pending } ∷ ys) })
      ≡ record { value = 0; waiters = xs ++ (record { task = t; future = woken } ∷ ys) }
unfolding release wake_up_next
release_oldest xs ys t h = ground (arith, wake_first-oldest xs ys t h)
