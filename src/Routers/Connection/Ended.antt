-- ===== src/Routers/Connection/Ended.antt =====
-- The loop stops the call of its last orchestrator and no other, and after that the call rests.
use fastapi_claude_voice_age.Base.{
  ◌≡◌, refl, ap, subst, ◌∙◌, arith, inl, inr, Bool, true, false, Bool-cases, Option, none, some,
  List, [], ◌∷◌, All,
}
use mathlib.Core.Option
use fastapi_claude_voice_age.Python.{Json, Result, ok, raise}
use fastapi_claude_voice_age.Orchestrator.Call.{Call}
use fastapi_claude_voice_age.Orchestrator.Call.Invariant.Runs.{IsAtRest, IsAtRest-trans}
use fastapi_claude_voice_age.Orchestrator.Live.{Live, as_call}
use fastapi_claude_voice_age.Orchestrator.Live
use fastapi_claude_voice_age.Orchestrator.Live.Stopped.{step-IsAtRest}
use fastapi_claude_voice_age.Routers.Socket.{Move}
use fastapi_claude_voice_age.Routers.Connection.{
  Seat, Place, stopping, over, Connection, Event, stopped, current_goes, former_goes, init,
  is_closed, stop_ended, seat_goes, loop_step, step, run,
}
use fastapi_claude_voice_age.Routers.Connection.Seats.{
  is_ending, live_of, Holds, HoldsAll, Former, seat_goes-cases,
}
use fastapi_claude_voice_age.Routers.Connection.Invariant.{Good, step-Good, run-Good, init-Good}
use fastapi_claude_voice_age.Routers.Connection.Marked.{
  SeatMarked, CurrentMarked, run-Marked, init-Marked,
}

-- `stop` was called of the call, or was not; an orchestrator whose `start` raised has none.
abbrev pub LiveIsStopped : Bool → Option Live → Type 0
LiveIsStopped b none = Unit
LiveIsStopped b (some l) = l.call.stopped ≡ b

abbrev pub IsStopped : Bool → Seat → Type 0
IsStopped b s = (s.is_stopped ≡ b) × LiveIsStopped b s.live

abbrev pub CurrentIsStopped : Bool → Option Seat → Type 0
CurrentIsStopped b none = Unit
CurrentIsStopped b (some s) = IsStopped b s

live-LiveIsStopped : (b : Bool) (o : Option Live) → HoldsAll b o → LiveIsStopped b o
unfolding HoldsAll
live-LiveIsStopped b none h = tt
live-LiveIsStopped b (some l) h = (h l refl).same

Former-IsStopped :
    (ss : List Seat) → Former ss → All (SeatMarked false) ss → All (IsStopped false) ss
unfolding Former
Former-IsStopped [] h k = tt
Former-IsStopped (s ∷ ss) h k =
    ((k.0, live-LiveIsStopped false s.live h.0), Former-IsStopped ss h.1 k.1)

current-IsStopped :
    (b : Bool) (o : Option Seat) → HoldsAll b (live_of o) → CurrentMarked b o → CurrentIsStopped b o
current-IsStopped b none h k = tt
current-IsStopped b (some s) h k = (k, live-LiveIsStopped b s.live h)

IsAtRest-refl : (c : Call) → c.stopped ≡ true → IsAtRest c c
IsAtRest-refl c s = record {
  frames = refl;
  user_texts = refl;
  stopped = s;
  rows = inl (refl, refl);
}

-- The connection goes from the `finally` clause on with the same call, at rest.
record GoesOn (l : Live) (c : Connection) : Type 0 where
  live : Live
  current : live_of c.current ≡ some live
  rests : IsAtRest (as_call l) (as_call live)
  ending : is_ending c.loop ≡ true

module _ (move : Bool → Json → Result Move) where
  ended-loop_step :
      (k : Place) (e : Event) (c : Connection)
      → c.loop ≡ k
      → is_ending k ≡ true
      → ((loop_step move k e c).current ≡ c.current)
        × (is_ending (loop_step move k e c).loop ≡ true)
  unfolding loop_step stop_ended
  ended-loop_step (stopping x) (stopped (ok u)) c h i = elim (Bool-cases (is_closed c.current)) [
    | inl k ↦ rw (k, stop_ended) (refl, refl)
    | inr k ↦ rw (k, stop_ended) (refl, ap is_ending h)
  ]
  ended-loop_step (stopping x) (stopped (raise y)) c h i = (refl, refl)
  ended-loop_step (stopping x) _ c h i = (refl, ap is_ending h)
  ended-loop_step (over x) _ c h i = (refl, ap is_ending h)
  ended-loop_step _ e c h i = absurd (ground (arith, i))

  seat_goes-IsAtRest :
      (e : Live.Event) (s : Seat) (l : Live)
      → Holds true l
      → s.live ≡ some l
      → (l' : Live) × ((seat_goes e s).live ≡ some l') × IsAtRest (as_call l) (as_call l')
  unfolding as_call
  seat_goes-IsAtRest e s l v h = elim (seat_goes-cases e s) [
    | inl same ↦ (l, ap (λ t. t.live) same ∙ h, IsAtRest-refl (as_call l) v.same)
    | inr (runs, same) ↦ (
      Live.step l e,
      same ∙ ap (Option.map (λ l. Live.step l e)) h,
      step-IsAtRest l e v.inv v.same,
    )
  ]

  current_goes-IsAtRest :
      (e : Live.Event) (o : Option Seat) (l : Live)
      → Holds true l
      → live_of o ≡ some l
      → (l' : Live) × (live_of (Option.map (seat_goes e) o) ≡ some l')
        × IsAtRest (as_call l) (as_call l')
  current_goes-IsAtRest e none l v h = absurd (ground (arith, h))
  current_goes-IsAtRest e (some s) l v h = seat_goes-IsAtRest e s l v h

  step-GoesOn :
      (c : Connection) (e : Event) (l : Live)
      → Good c
      → is_ending c.loop ≡ true
      → live_of c.current ≡ some l
      → GoesOn l (step move c e)
  unfolding step HoldsAll as_call
  step-GoesOn c (current_goes e) l g i h =
      let v = subst (λ b. Holds b l) i (g.current l h) in
      let (l', e, r) = current_goes-IsAtRest e c.current l v h in
      record { live = l'; current = e; rests = r; ending = i }
  step-GoesOn c (former_goes n e) l g i h =
      let v = subst (λ b. Holds b l) i (g.current l h) in
      record { live = l; current = h; rests = IsAtRest-refl (as_call l) v.same; ending = i }
  step-GoesOn c e l g i h =
      let v = subst (λ b. Holds b l) i (g.current l h) in
      let (same, ending) = ended-loop_step c.loop e c refl i in
      record {
        live = l;
        current = ap live_of same ∙ h;
        rests = IsAtRest-refl (as_call l) v.same;
        ending = ending;
      }

  run-GoesOn :
      (c : Connection) (es : List Event) (l : Live)
      → Good c
      → is_ending c.loop ≡ true
      → live_of c.current ≡ some l
      → GoesOn l (run move c es)
  unfolding run HoldsAll as_call
  run-GoesOn c [] l g i h =
      let v = subst (λ b. Holds b l) i (g.current l h) in
      record { live = l; current = h; rests = IsAtRest-refl (as_call l) v.same; ending = i }
  run-GoesOn c (e ∷ es) l g i h =
      let first = step-GoesOn c e l g i h in
      let rest =
        run-GoesOn (step move c e) es first.live (step-Good move c e g) first.ending
          first.current in
      record {
        live = rest.live;
        current = rest.current;
        rests = IsAtRest-trans first.rests rest.rests;
        ending = rest.ending;
      }

  -- Whatever frames come, whatever the calls' tasks do and whatever fails: `stop` was called of the
  -- last orchestrator, and of its call where that has started, if and only if the loop has come to its
  -- `finally` clause; and it was never called of an orchestrator that a later `start` frame replaced.
  pub run-IsStopped :
      (es : List Event)
      → CurrentIsStopped (is_ending (run move init es).loop) (run move init es).current
        × All (IsStopped false) (run move init es).former
  run-IsStopped es =
      let g = run-Good move init es (init-Good move) in
      let m = run-Marked move init es init-Marked in
      (
        current-IsStopped (is_ending (run move init es).loop) (run move init es).current g.current
            m.current,
        Former-IsStopped (run move init es).former g.former m.former,
      )

  -- If the loop of a connection has come to its `finally` clause, then whatever happens later its last
  -- call sends no frame and gives the model no text, and of it nothing is stored but the end of the
  -- session, at most once.
  pub run_ended :
      (es later : List Event) (l : Live)
      → is_ending (run move init es).loop ≡ true
      → live_of (run move init es).current ≡ some l
      → (l' : Live) × (live_of (run move (run move init es) later).current ≡ some l')
        × IsAtRest (as_call l) (as_call l')
  run_ended es later l i h =
      let g = run-Good move init es (init-Good move) in
      let r = run-GoesOn (run move init es) later l g i h in (r.live, r.current, r.rests)
