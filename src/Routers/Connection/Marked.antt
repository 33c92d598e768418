-- ===== src/Routers/Connection/Marked.antt =====
-- Which orchestrators of a connection have `_stopped` set, started or not.
use fastapi_claude_voice_age.Base.{
  ◌≡◌, refl, sym, subst, inl, inr, ℕ, zero, suc, Bool, true, false, Bool-cases, Option, none, some,
  Option-cases, String, List, [], ◌∷◌, All,
}
use mathlib.Core.Option
use fastapi_claude_voice_age.Python.{Json, Result, ok, raise}
use fastapi_claude_voice_age.Audio.{on_audio_frame}
use fastapi_claude_voice_age.Orchestrator.Live.{Live}
use fastapi_claude_voice_age.Orchestrator.Live
use fastapi_claude_voice_age.Routers.Socket.{
  Opened, Received, json, bad_json, disconnect, Move, begin, audio, leave, ignore, Ending, left,
  disconnected, failed,
}
use fastapi_claude_voice_age.Routers.Connection.{
  Seat, Place, receiving, starting, feeding, stopping, over, Connection, Event, receives, started,
  fed, stopped, current_goes, former_goes, init, encoding_of, has_one, call_stop, close, put_aside,
  act, start_ended, feed_ended, is_closed, stop_ended, seat_goes, nth_goes, feed, receive,
  loop_step, step, run,
}
use fastapi_claude_voice_age.Routers.Connection.Seats.{is_ending}

abbrev pub SeatMarked : Bool → Seat → Type 0
SeatMarked b s = s.is_stopped ≡ b

abbrev pub CurrentMarked : Bool → Option Seat → Type 0
CurrentMarked b none = Unit
CurrentMarked b (some s) = SeatMarked b s

pub record Marked (c : Connection) : Type 0 where
  pub current : CurrentMarked (is_ending c.loop) c.current
  pub former : All (SeatMarked false) c.former

close-Marked : (e : Ending) (c : Connection) → Marked c → Marked (close e c)
unfolding close call_stop
close-Marked e c v = elim c.current as (λ o. Marked (close e (record c { current = o }))) [
  | none ↦ record { current = tt; former = v.former }
  | some s ↦ record { current = refl; former = v.former }
]

-- The loop goes on with the same orchestrators.
goes_on-Marked :
    (loop : Place) (c : Connection)
    → is_ending loop ≡ is_ending c.loop
    → Marked c
    → Marked (record c { loop = loop })
goes_on-Marked loop c h v = record {
  current = subst (λ b. CurrentMarked b c.current) (sym h) v.current;
  former = v.former;
}

put_aside-Marked :
    (o : Option Seat) (ss : List Seat)
    → CurrentMarked false o
    → All (SeatMarked false) ss
    → All (SeatMarked false) (put_aside o ss)
put_aside-Marked none ss h k = k
put_aside-Marked (some s) ss h k = (h, k)

act-Marked :
    (m : Result Move) (c : Connection) → is_ending c.loop ≡ false → Marked c → Marked (act m c)
unfolding act
act-Marked (raise x) c h v = close-Marked (failed x) c v
act-Marked (ok ignore) c h v = v
act-Marked (ok leave) c h v = close-Marked left c v
act-Marked (ok (begin o)) c h v = record {
  current = refl;
  former =
      put_aside-Marked c.current c.former (subst (λ b. CurrentMarked b c.current) h v.current)
        v.former;
}
act-Marked (ok (audio payload)) c h v = elim (Bool-cases (has_one c.current)) [
  | inl e ↦ rw (e, act) (goes_on-Marked (feeding payload) c (sym h) v)
  | inr e ↦ rw (e, act) v
]

start_ended-Marked :
    (o : Opened) (r : Result Live) (c : Connection) → Marked c → Marked (start_ended o r c)
unfolding start_ended
start_ended-Marked o (ok l) c v = record { current = refl; former = v.former }
start_ended-Marked o (raise x) c v = close-Marked (failed x) c v

feed_ended-Marked :
    (r : Result (List ℕ)) (c : Connection)
    → is_ending c.loop ≡ false
    → Marked c
    → Marked (feed_ended r c)
unfolding feed_ended
feed_ended-Marked (ok pcm) c h v = goes_on-Marked receiving c (sym h) v
feed_ended-Marked (raise x) c h v = close-Marked (failed x) c v

feed-Marked :
    (o : Option Seat) (payload : String) (send : List ℕ → Result (Unit {0})) (c : Connection)
    → is_ending c.loop ≡ false
    → Marked c
    → Marked (feed o payload send c)
unfolding feed
feed-Marked none payload send c h v = v
feed-Marked (some s) payload send c h v = elim (Option-cases s.live) [
  | inl e ↦ rw (e, feed) v
  | inr (l, e) ↦
      rw (e, feed)
        (feed_ended-Marked (on_audio_frame send payload (encoding_of s.opened.transport) l.stt) c h
          v)
]

stop_ended-Marked :
    (e : Ending) (r : Result (Unit {0})) (c : Connection)
    → is_ending c.loop ≡ true
    → Marked c
    → Marked (stop_ended e r c)
unfolding stop_ended
stop_ended-Marked e (ok u) c h v = elim (Bool-cases (is_closed c.current)) [
  | inl k ↦ rw (k, stop_ended) (goes_on-Marked (over e) c (sym h) v)
  | inr k ↦ rw (k, stop_ended) v
]
stop_ended-Marked e (raise x) c h v = goes_on-Marked (over (failed x)) c (sym h) v

-- A task of a call does not touch it.
is_stopped-seat_goes : (e : Live.Event) (s : Seat) → (seat_goes e s).is_stopped ≡ s.is_stopped
unfolding seat_goes
is_stopped-seat_goes Live.stop_called s = refl
is_stopped-seat_goes _ s = refl

current_goes-Marked :
    (e : Live.Event) (b : Bool) (o : Option Seat)
    → CurrentMarked b o
    → CurrentMarked b (Option.map (seat_goes e) o)
current_goes-Marked e b none h = tt
current_goes-Marked e b (some s) h = rw is_stopped-seat_goes h

nth_goes-Marked :
    (n : ℕ) (e : Live.Event) (ss : List Seat)
    → All (SeatMarked false) ss
    → All (SeatMarked false) (nth_goes n e ss)
unfolding nth_goes
nth_goes-Marked n e [] h = tt
nth_goes-Marked zero e (s ∷ ss) h = (rw is_stopped-seat_goes h.0, h.1)
nth_goes-Marked (suc n) e (s ∷ ss) h = (h.0, nth_goes-Marked n e ss h.1)

module _ (move : Bool → Json → Result Move) where
  receive-Marked :
      (f : Received) (c : Connection)
      → is_ending c.loop ≡ false
      → Marked c
      → Marked (receive move f c)
  unfolding receive
  receive-Marked disconnect c h v = close-Marked disconnected c v
  receive-Marked bad_json c h v = v
  receive-Marked (json v) c h w = act-Marked (move (has_one c.current) v) c h w

  loop_step-Marked :
      (k : Place) (e : Event) (c : Connection)
      → is_ending c.loop ≡ is_ending k
      → Marked c
      → Marked (loop_step move k e c)
  unfolding loop_step
  loop_step-Marked receiving (receives f) c h v = receive-Marked f c h v
  loop_step-Marked (starting o) (started connected created) c h v =
      start_ended-Marked o
        (Live.start o.transport o.stream_sid o.call_sid o.from_number connected created) c v
  loop_step-Marked (feeding payload) (fed send) c h v = feed-Marked c.current payload send c h v
  loop_step-Marked (stopping e) (stopped r) c h v = stop_ended-Marked e r c h v
  loop_step-Marked receiving _ c h v = v
  loop_step-Marked (starting o) _ c h v = v
  loop_step-Marked (feeding payload) _ c h v = v
  loop_step-Marked (stopping x) _ c h v = v
  loop_step-Marked (over x) _ c h v = v

  step-Marked : (c : Connection) (e : Event) → Marked c → Marked (step move c e)
  unfolding step
  step-Marked c (current_goes e) v = record {
    current = current_goes-Marked e (is_ending c.loop) c.current v.current;
    former = v.former;
  }
  step-Marked c (former_goes n e) v = record {
    current = v.current;
    former = nth_goes-Marked n e c.former v.former;
  }
  step-Marked c e v = loop_step-Marked c.loop e c refl v

  pub run-Marked : (c : Connection) (es : List Event) → Marked c → Marked (run move c es)
  unfolding run
  run-Marked c [] v = v
  run-Marked c (e ∷ es) v = run-Marked (step move c e) es (step-Marked c e v)

pub init-Marked : Marked init
init-Marked = record { current = tt; former = tt }
