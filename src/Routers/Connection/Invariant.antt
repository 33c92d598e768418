-- ===== src/Routers/Connection/Invariant.antt =====
-- What holds of the calls of a connection after every step.
use fastapi_claude_voice_age.Base.{
  ◌≡◌, refl, ap, sym, subst, inl, inr, ℕ, Bool, true, false, Bool-cases, Option, none, some,
  Option-cases, String, List, [], ◌∷◌,
}
use mathlib.Core.Option
use fastapi_claude_voice_age.Python.{Json, Result, Result-cases, ok, raise}
use fastapi_claude_voice_age.Audio.{on_audio_frame}
use fastapi_claude_voice_age.Orchestrator.Live.{Live, as_call}
use fastapi_claude_voice_age.Orchestrator.Live
use fastapi_claude_voice_age.Orchestrator.Live.Stopped.{start-Live}
use fastapi_claude_voice_age.Routers.Socket.{
  Opened, Received, json, bad_json, disconnect, Move, begin, audio, leave, ignore, Ending, left,
  disconnected, failed,
}
use fastapi_claude_voice_age.Routers.Connection.{
  Seat, Place, receiving, starting, feeding, stopping, over, Connection, Event, receives, started,
  fed, stopped, current_goes, former_goes, init, encoding_of, has_one, call_stop, close, act,
  start_ended, feed_ended, is_closed, stop_ended, seat_goes, feed, receive, loop_step, step, run,
}
use fastapi_claude_voice_age.Routers.Connection.Seats.{
  is_ending, live_of, HoldsAll, Former, none-HoldsAll, some-HoldsAll, map-HoldsAll,
  seat_goes-HoldsAll, nth_goes-Former, stop_called-Holds, put_aside-Former,
}

pub record Good (c : Connection) : Type 0 where
  pub current : HoldsAll (is_ending c.loop) (live_of c.current)
  pub former : Former c.former

close-Good : (e : Ending) (c : Connection) → Good c → Good (close e c)
unfolding close call_stop
close-Good e c v =
    elim c.current
        as (λ o.
          HoldsAll (is_ending c.loop) (live_of o) → Good (close e (record c { current = o }))) [
            | none ↦ λ h. record { current = none-HoldsAll true; former = v.former }
            | some s ↦ λ h. record {
              current =
                  map-HoldsAll (is_ending c.loop) true (λ l. Live.step l Live.stop_called) s.live
                    (stop_called-Holds (is_ending c.loop)) h;
              former = v.former;
            }
          ]
      v.current

-- The loop goes on with the same orchestrators.
goes_on-Good :
    (loop : Place) (c : Connection)
    → is_ending loop ≡ is_ending c.loop
    → Good c
    → Good (record c { loop = loop })
goes_on-Good loop c h v = record {
  current = subst (λ b. HoldsAll b (live_of c.current)) (sym h) v.current;
  former = v.former;
}

act-Good : (m : Result Move) (c : Connection) → is_ending c.loop ≡ false → Good c → Good (act m c)
unfolding act
act-Good (raise x) c h v = close-Good (failed x) c v
act-Good (ok ignore) c h v = v
act-Good (ok leave) c h v = close-Good left c v
act-Good (ok (begin o)) c h v = record {
  current = none-HoldsAll false;
  former =
      put_aside-Former c.current c.former (subst (λ b. HoldsAll b (live_of c.current)) h v.current)
        v.former;
}
act-Good (ok (audio payload)) c h v = elim (Bool-cases (has_one c.current)) [
  | inl e ↦ rw (e, act) (goes_on-Good (feeding payload) c (sym h) v)
  | inr e ↦ rw (e, act) v
]

start_ended-Good :
    (o : Opened) (connected created : Result (Unit {0})) (c : Connection)
    → Good c
    → Good (
        start_ended o
          (Live.start o.transport o.stream_sid o.call_sid o.from_number connected created)
          c)
unfolding start_ended
start_ended-Good o connected created c v =
    elim (Result-cases
      (Live.start o.transport o.stream_sid o.call_sid o.from_number connected created)) [
        | inl (l, e) ↦
            let (i, s) =
              start-Live o.transport o.stream_sid o.call_sid o.from_number connected created l e in
            rw (e, start_ended)
              (record {
                current = some-HoldsAll false l (record { inv = i; same = s });
                former = v.former;
              })
        | inr (x, e) ↦ rw (e, start_ended) (close-Good (failed x) c v)
      ]

feed_ended-Good :
    (r : Result (List ℕ)) (c : Connection)
    → is_ending c.loop ≡ false
    → Good c
    → Good (feed_ended r c)
unfolding feed_ended
feed_ended-Good (ok pcm) c h v = goes_on-Good receiving c (sym h) v
feed_ended-Good (raise x) c h v = close-Good (failed x) c v

feed-Good :
    (o : Option Seat) (payload : String) (send : List ℕ → Result (Unit {0})) (c : Connection)
    → is_ending c.loop ≡ false
    → Good c
    → Good (feed o payload send c)
unfolding feed
feed-Good none payload send c h v = v
feed-Good (some s) payload send c h v = elim (Option-cases s.live) [
  | inl e ↦ rw (e, feed) v
  | inr (l, e) ↦
      rw (e, feed)
        (feed_ended-Good (on_audio_frame send payload (encoding_of s.opened.transport) l.stt) c h v)
]

stop_ended-Good :
    (e : Ending) (r : Result (Unit {0})) (c : Connection)
    → is_ending c.loop ≡ true
    → Good c
    → Good (stop_ended e r c)
unfolding stop_ended
stop_ended-Good e (ok u) c h v = elim (Bool-cases (is_closed c.current)) [
  | inl k ↦ rw (k, stop_ended) (goes_on-Good (over e) c (sym h) v)
  | inr k ↦ rw (k, stop_ended) v
]
stop_ended-Good e (raise x) c h v = goes_on-Good (over (failed x)) c (sym h) v

current_goes-Good :
    (e : Live.Event) (c : Connection)
    → Good c
    → Good (record c { current = Option.map (seat_goes e) c.current })
current_goes-Good e c v = record {
  current =
      elim c.current
          as (λ o.
            HoldsAll (is_ending c.loop) (live_of o)
            → HoldsAll (is_ending c.loop) (live_of (Option.map (seat_goes e) o))) [
              | none ↦ λ h. h
              | some s ↦ seat_goes-HoldsAll (is_ending c.loop) e s
            ]
        v.current;
  former = v.former;
}

module _ (move : Bool → Json → Result Move) where
  receive-Good :
      (f : Received) (c : Connection) → is_ending c.loop ≡ false → Good c → Good (receive move f c)
  unfolding receive
  receive-Good disconnect c h v = close-Good disconnected c v
  receive-Good bad_json c h v = v
  receive-Good (json v) c h w = act-Good (move (has_one c.current) v) c h w

  loop_step-Good :
      (k : Place) (e : Event) (c : Connection) → c.loop ≡ k → Good c → Good (loop_step move k e c)
  unfolding loop_step
  loop_step-Good receiving (receives f) c h v = receive-Good f c (ap is_ending h) v
  loop_step-Good (starting o) (started connected created) c h v =
      start_ended-Good o connected created c v
  loop_step-Good (feeding payload) (fed send) c h v =
      feed-Good c.current payload send c (ap is_ending h) v
  loop_step-Good (stopping e) (stopped r) c h v = stop_ended-Good e r c (ap is_ending h) v
  loop_step-Good receiving _ c h v = v
  loop_step-Good (starting o) _ c h v = v
  loop_step-Good (feeding payload) _ c h v = v
  loop_step-Good (stopping x) _ c h v = v
  loop_step-Good (over x) _ c h v = v

  pub step-Good : (c : Connection) (e : Event) → Good c → Good (step move c e)
  unfolding step
  step-Good c (current_goes e) v = current_goes-Good e c v
  step-Good c (former_goes n e) v = record {
    current = v.current;
    former = nth_goes-Former n e c.former v.former;
  }
  step-Good c e v = loop_step-Good c.loop e c refl v

  pub run-Good : (c : Connection) (es : List Event) → Good c → Good (run move c es)
  unfolding run
  run-Good c [] v = v
  run-Good c (e ∷ es) v = run-Good (step move c e) es (step-Good c e v)

  pub init-Good : Good init
  unfolding Former
  init-Good = record { current = none-HoldsAll false; former = tt }
