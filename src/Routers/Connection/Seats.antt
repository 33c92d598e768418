-- ===== src/Routers/Connection/Seats.antt =====
-- What one orchestrator of a connection keeps, and what a list of them does.
use fastapi_claude_voice_age.Base.{
  ◌≡◌, refl, ap, sym, subst, ◌∙◌, ◌⊎◌, arith, inl, inr, ℕ, zero, suc, Bool, true, false, Option,
  none, some, List, [], ◌∷◌, All,
}
use mathlib.Core.Option
use fastapi_claude_voice_age.Orchestrator.Call.Invariant.Steps.{Inv}
use fastapi_claude_voice_age.Orchestrator.Live.{Live, as_call}
use fastapi_claude_voice_age.Orchestrator.Live
use fastapi_claude_voice_age.Orchestrator.Live.Stopped.{
  step-Inv, stopped-stop_called, is_stop, step-running,
}
use fastapi_claude_voice_age.Routers.Connection.{
  Seat, Place, stopping, over, put_aside, seat_goes, nth_goes,
}

-- The loop has come to its `finally` clause.
abbrev pub is_ending : Place → Bool
is_ending (stopping e) = true
is_ending (over e) = true
is_ending _ = false

-- The call of an orchestrator, once it has started.
abbrev pub live_of : Option Seat → Option Live
live_of none = none
live_of (some s) = s.live

-- A call that `stop` was called of, or was not.
pub record Holds (ended : Bool) (l : Live) : Type 0 where
  pub inv : Inv (as_call l)
  pub same : l.call.stopped ≡ ended

unfoldable pub HoldsAll : Bool → Option Live → Type 0
HoldsAll ended o = (l : Live) → o ≡ some l → Holds ended l

pub none-HoldsAll : (ended : Bool) → HoldsAll ended none
unfolding HoldsAll
none-HoldsAll ended l h = absurd (ground (arith, h))

pub some-HoldsAll : (ended : Bool) (l : Live) → Holds ended l → HoldsAll ended (some l)
unfolding HoldsAll
some-HoldsAll ended l v l' h = subst (Holds ended) (ap (λ o. elim o [ none ↦ l | some x ↦ x ]) h) v

-- A task of a call runs.
pub seat_goes-cases :
    (e : Live.Event) (s : Seat)
    → (seat_goes e s ≡ s)
      ⊎ ((is_stop e ≡ false) × ((seat_goes e s).live ≡ Option.map (λ l. Live.step l e) s.live))
unfolding seat_goes is_stop
seat_goes-cases Live.stop_called s = inl refl
seat_goes-cases _ s = inr (refl, refl)

step-Holds :
    (ended : Bool) (l : Live) (e : Live.Event)
    → is_stop e ≡ false
    → Holds ended l
    → Holds ended (Live.step l e)
step-Holds ended l e h v = record {
  inv = step-Inv l e v.inv;
  same = step-running l e h v.inv ∙ v.same;
}

pub map-HoldsAll :
    (ended ended' : Bool) (f : Live → Live) (o : Option Live)
    → ((l : Live) → Holds ended l → Holds ended' (f l))
    → HoldsAll ended o
    → HoldsAll ended' (Option.map f o)
unfolding HoldsAll
map-HoldsAll ended ended' f none g h = none-HoldsAll ended'
map-HoldsAll ended ended' f (some l) g h = some-HoldsAll ended' (f l) (g l (h l refl))

pub seat_goes-HoldsAll :
    (ended : Bool) (e : Live.Event) (s : Seat)
    → HoldsAll ended s.live
    → HoldsAll ended (seat_goes e s).live
seat_goes-HoldsAll ended e s h = elim (seat_goes-cases e s) [
  | inl same ↦ subst (λ t. HoldsAll ended t.live) (sym same) h
  | inr (runs, same) ↦
      subst (HoldsAll ended) (sym same) (
        map-HoldsAll ended ended (λ l. Live.step l e) s.live (λ l v. step-Holds ended l e runs v) h)
]

-- The calls of the seats that were replaced go on.
unfoldable pub Former : List Seat → Type 0
Former ss = All (λ s. HoldsAll false s.live) ss

pub nth_goes-Former :
    (n : ℕ) (e : Live.Event) (ss : List Seat) → Former ss → Former (nth_goes n e ss)
unfolding nth_goes Former
nth_goes-Former n e [] h = tt
nth_goes-Former zero e (s ∷ ss) h = (seat_goes-HoldsAll false e s h.0, h.1)
nth_goes-Former (suc n) e (s ∷ ss) h = (h.0, nth_goes-Former n e ss h.1)

pub stop_called-Holds :
    (ended : Bool) (l : Live) → Holds ended l → Holds true (Live.step l Live.stop_called)
stop_called-Holds ended l v = record {
  inv = step-Inv l Live.stop_called v.inv;
  same = stopped-stop_called l;
}

pub put_aside-Former :
    (o : Option Seat) (ss : List Seat)
    → HoldsAll false (live_of o)
    → Former ss
    → Former (put_aside o ss)
unfolding Former
put_aside-Former none ss h k = k
put_aside-Former (some s) ss h k = (h, k)
