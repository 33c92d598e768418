-- ===== src/Routers/Socket/Malformed.antt =====
-- JSON that is no object.
use fastapi_claude_voice_age.Base.{
  ◌≡◌, true, refl, arith, String, Bool, Option, none, some, List, [], ◌∷◌, ◌++◌,
}
use fastapi_claude_voice_age.Python.{Json, Exn, Result, raise}
use fastapi_claude_voice_age.Python.Objects.{dict_of}
use fastapi_claude_voice_age.Routers.Socket.{
  Opened, Action, stop, Received, json, Move, failed, media_move, signaling_move, has, close, act,
  run,
}

module _ (text_of : Json → String) (outcome : List Action → Action → Option Exn) where
  media_move-raise :
      (b : Bool) (v : Json) (x : Exn) → dict_of v ≡ raise x → media_move text_of b v ≡ raise x
  unfolding media_move
  media_move-raise b v x e = rw (e) refl

  signaling_move-raise :
      (b : Bool) (v : Json) (x : Exn) → dict_of v ≡ raise x → signaling_move text_of b v ≡ raise x
  unfolding signaling_move
  signaling_move-raise b v x e = rw (e) refl

  run-raise :
      (move : Bool → Json → Result Move) (v : Json) (x : Exn) (frames : List Received) (o : Opened)
      (log : List Action)
      → move true v ≡ raise x
      → outcome log (stop o) ≡ none
      → run move outcome (json v ∷ frames) (some o) log ≡ (log ++ (stop o ∷ []), failed x)
  unfolding run has act close
  run-raise move v x frames o log e fine = ground (arith, e, fine)

  -- A text frame whose JSON is no object, such as a list, is not ignored: on either socket it ends the
  -- call of the orchestrator that is running, whose `stop` is called, and raises the AttributeError
  -- out of the loop, whatever frames would have followed.
  pub run_not_object :
      (v : Json) (x : Exn) (frames : List Received) (o : Opened) (log : List Action)
      → dict_of v ≡ raise x
      → outcome log (stop o) ≡ none
      → (run (media_move text_of) outcome (json v ∷ frames) (some o) log
          ≡ (log ++ (stop o ∷ []), failed x))
        × (run (signaling_move text_of) outcome (json v ∷ frames) (some o) log
            ≡ (log ++ (stop o ∷ []), failed x))
  run_not_object v x frames o log e fine = (
    run-raise (media_move text_of) v x frames o log (media_move-raise true v x e) fine,
    run-raise (signaling_move text_of) v x frames o log (signaling_move-raise true v x e) fine,
  )
