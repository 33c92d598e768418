-- ===== src/Routers/Socket/Sessions.antt =====
-- The calls that a socket makes of its orchestrators, whatever frames come and whatever fails.
use fastapi_claude_voice_age.Base.{
  ◌≡◌, refl, ap, sym, subst, ◌∙◌, ◌⊎◌, inl, inr, arith, ◌≤◌, Bool, true, false, Option, none, some,
  List, [], ◌∷◌, ◌++◌, Option-cases, tally,
}
use fastapi_claude_voice_age.Python.{Json, Exn, Result, ok, raise}
use fastapi_claude_voice_age.Routers.Socket.{
  Opened, Action, start, on_audio_frame, stop, Received, json, bad_json, disconnect, Move, begin,
  audio, leave, ignore, Ending, left, disconnected, waiting, failed, has, close, called, act, run,
}

pub is_over : Ending → Bool
is_over waiting = false
is_over _ = true

-- The calls of a socket whose orchestrator is `current`, oldest first: audio goes to the one started
-- last, `stop` is the last call and goes to that one too, and if the loop is over, nothing that is
-- `current` at the end is left without it.
pub IsSession : (over : Bool) → Option Opened → List Action → Type 0
IsSession over current [] = (over ≡ false) ⊎ (current ≡ none)
IsSession over current (start o ∷ calls) = IsSession over (some o) calls
IsSession over current (on_audio_frame o payload ∷ calls) =
    (current ≡ some o) × IsSession over (some o) calls
IsSession over current (stop o ∷ calls) = (over ≡ true) × (current ≡ some o) × (calls ≡ [])

pub is_stop : Action → Bool
is_stop (stop o) = true
is_stop _ = false

one_stop :
    (over : Bool) (current : Option Opened) (calls : List Action)
    → IsSession over current calls
    → tally is_stop calls ≤ 1
unfolding IsSession is_stop
one_stop over current [] h = omega arith
one_stop over current (start o ∷ calls) h = one_stop over (some o) calls h
one_stop over current (on_audio_frame o payload ∷ calls) h = one_stop over (some o) calls h.1
one_stop over current (stop o ∷ calls) h = omega (arith, ap (tally is_stop) h.2)

-- The calls after `log`.
Goes : Option Opened → List Action → List Action × Ending → Type 0
Goes current log o =
    (calls : List Action) × (o.0 ≡ log ++ calls) × IsSession (is_over o.1) current calls

append_nil : (log : List Action) → log ≡ log ++ []
append_nil [] = refl
append_nil (a ∷ log) = ap (◌∷◌ a) (append_nil log)

append_one :
    (log : List Action) (a : Action) (calls : List Action)
    → (log ++ (a ∷ [])) ++ calls ≡ log ++ (a ∷ calls)
append_one [] a calls = refl
append_one (b ∷ log) a calls = ap (◌∷◌ b) (append_one log a calls)

module _ (move : Bool → Json → Result Move) (outcome : List Action → Action → Option Exn) where
  close-Goes :
      (current : Option Opened) (log : List Action) (e : Ending)
      → is_over e ≡ true
      → Goes current log (close move outcome current log e)
  unfolding close Goes IsSession is_over
  close-Goes none log e h = ([], append_nil log, inr refl)
  close-Goes (some o) log e h = elim (Option-cases (outcome log (stop o))) [
    | inl fine ↦ (stop o ∷ [], refl, (ground (arith, fine, h), refl, refl))
    | inr (x, bad) ↦ (stop o ∷ [], refl, (ground (arith, bad), refl, refl))
  ]

  -- A call, and what comes after it.
  called-Goes :
      (r : Option Exn) (current : Option Opened) (o : Opened) (a : Action) (log : List Action)
      (after : List Action × Ending)
      → ((over : Bool) (calls : List Action)
          → IsSession over (some o) calls
          → IsSession over current (a ∷ calls))
      → Goes (some o) (log ++ (a ∷ [])) after
      → Goes current log (called move outcome r o (log ++ (a ∷ [])) after)
  unfolding called Goes is_over
  called-Goes none current o a log after more (calls, e, session) =
      (a ∷ calls, e ∙ append_one log a calls, more (is_over after.1) calls session)
  called-Goes (some x) current o a log after more goes =
      let closing : List Action × Ending =
        close move outcome (some o) (log ++ (a ∷ [])) (failed x) in
      let (calls, e, session) = close-Goes (some o) (log ++ (a ∷ [])) (failed x) refl in
      (a ∷ calls, e ∙ append_one log a calls, more (is_over closing.1) calls session)

  act-Goes :
      (m : Result Move) (rest : Option Opened → List Action → List Action × Ending)
      (current : Option Opened) (log : List Action)
      → ((c : Option Opened) (l : List Action) → Goes c l (rest c l))
      → Goes current log (act move outcome m rest current log)
  unfolding act IsSession is_over
  act-Goes (raise x) rest current log goes = close-Goes current log (failed x) refl
  act-Goes (ok ignore) rest current log goes = goes current log
  act-Goes (ok leave) rest current log goes = close-Goes current log left refl
  act-Goes (ok (begin o)) rest current log goes =
      called-Goes (outcome log (start o)) current o (start o) log
        (rest (some o) (log ++ (start o ∷ []))) (λ over calls h. h)
        (goes (some o) (log ++ (start o ∷ [])))
  act-Goes (ok (audio payload)) rest none log goes = goes none log
  act-Goes (ok (audio payload)) rest (some o) log goes =
      called-Goes (outcome log (on_audio_frame o payload)) (some o) o (on_audio_frame o payload) log
        (rest (some o) (log ++ (on_audio_frame o payload ∷ []))) (λ over calls h. (refl, h))
        (goes (some o) (log ++ (on_audio_frame o payload ∷ [])))

  run-Goes :
      (frames : List Received) (current : Option Opened) (log : List Action)
      → Goes current log (run move outcome frames current log)
  unfolding run Goes IsSession is_over
  run-Goes [] current log = ([], append_nil log, inl refl)
  run-Goes (disconnect ∷ frames) current log = close-Goes current log disconnected refl
  run-Goes (bad_json ∷ frames) current log = run-Goes frames current log
  run-Goes (json v ∷ frames) current log =
      act-Goes (move (has move outcome current) v) (run move outcome frames) current log
        (run-Goes frames)

  -- Whatever frames a socket receives and whichever calls raise: audio goes to the orchestrator that
  -- was started last, no call follows `stop`, and once the loop is over the orchestrator started
  -- last, if there is one, has been stopped.
  pub run-IsSession :
      (frames : List Received)
      → IsSession
          (is_over (run move outcome frames none []).1)
          none
          (run move outcome frames none []).0
  unfolding Goes
  run-IsSession frames =
      let (calls, e, session) = run-Goes frames none [] in
      subst (IsSession (is_over (run move outcome frames none []).1) none) (sym e) session

  -- However many orchestrators a socket starts, it stops at most one.
  pub run-stops : (frames : List Received) → tally is_stop (run move outcome frames none []).0 ≤ 1
  run-stops frames =
      one_stop (is_over (run move outcome frames none []).1) none
        (run move outcome frames none []).0 (run-IsSession frames)
