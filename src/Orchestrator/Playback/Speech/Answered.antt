-- ===== src/Orchestrator/Playback/Speech/Answered.antt =====
-- A playback over the answer that the speech synthesis got from its service.
use fastapi_claude_voice_age.Base.{
  ◌≡◌, refl, ap, ◌∙◌, inl, inr, ℕ, ◌+◌, ◌≤◌, Bool, Option, eqb, String, List, [], ◌∷◌, ◌++◌, length,
  arith, Bool-cases, if◌then◌else◌,
}
use fastapi_claude_voice_age.Python.{Exn}
use fastapi_claude_voice_age.Tts.{Answer, unreachable, response, nonempty, synthesize_stream}
use fastapi_claude_voice_age.Orchestrator.Playback.{Transport, done, start_playback}
use fastapi_claude_voice_age.Orchestrator.Playback.Frames.{bytes_of}
use fastapi_claude_voice_age.Orchestrator.Playback.Speech.{perform}
use fastapi_claude_voice_age.Orchestrator.Playback.Speech.Chunks.{concat, whole, cut, ending}
use fastapi_claude_voice_age.Orchestrator.Playback.Speech.Ends.{perform-done}

-- All bytes of an answer's body, none of one with another status than 200.
abbrev pub body : Answer → List ℕ
body (unreachable e) = []
body (response status_code chunks failure) = if eqb status_code 200 then concat chunks else []

-- What a playback of an answer ends with: the exception of the synthesis, or on Twilio that of an odd
-- number of bytes.
abbrev pub exception : Transport → (ℕ → String) → Answer → Option Exn
exception t number_text a = ending t (synthesize_stream number_text a).failure (body a)

-- What is heard of an answer: the bytes of its body, and if there is such an exception then only the
-- full chunks.
unfoldable pub heard : Transport → (ℕ → String) → Answer → List ℕ
unfolding whole
heard t number_text a = cut (exception t number_text a) (body a)

concat-nonempty : (cs : List (List ℕ)) → concat (nonempty cs) ≡ concat cs
unfolding nonempty
concat-nonempty [] = refl
concat-nonempty ([] ∷ cs) = concat-nonempty cs
concat-nonempty ((b ∷ bs) ∷ cs) = ap (λ x. (b ∷ bs) ++ x) (concat-nonempty cs)

concat-body :
    (number_text : ℕ → String) (a : Answer) → concat (synthesize_stream number_text a).pcm ≡ body a
unfolding synthesize_stream
concat-body number_text (unreachable e) = refl
concat-body number_text (response status_code chunks failure) =
    elim (Bool-cases (eqb status_code 200)) [
      | inl e ↦ rw e (concat-nonempty chunks)
      | inr e ↦ ground (arith, e)
    ]

-- While nothing cancels a playback and its sends and its write go through, it comes to its end within
-- six sections more than the synthesis has chunks and bytes. It ends with the exception of the
-- synthesis, if there is one, or on Twilio, if the body has an odd number of bytes, with that of
-- `audioop`, which takes whole samples alone. What it has sent by then is the body of the answer, or
-- if it ends with an exception the body's full chunks, or nothing if the status was not 200; and its
-- text is stored, in each of these cases, if it was started to do so.
pub perform-heard :
    (transport : Transport) (sid : String) (number_text : ℕ → String) (a : Answer) (text : String)
    (persist : Bool) (n : ℕ)
    → length (synthesize_stream number_text a).pcm
        + length (concat (synthesize_stream number_text a).pcm)
        + 6
      ≤ n
    → let s = synthesize_stream number_text a in
      let r = perform transport sid n (start_playback text persist) s.pcm s.failure in
      (r.task.pc ≡ done (exception transport number_text a))
      × (bytes_of r.sent ≡ heard transport number_text a)
      × (r.stored ≡ (if persist then text ∷ [] else []))
unfolding start_playback heard
perform-heard transport sid number_text a text persist n l =
    let s = synthesize_stream number_text a in
    let (x, y, z) =
      perform-done transport sid n (start_playback text persist) s.pcm s.failure refl tt l in
    let all = concat-body number_text a in
    (
      x ∙ ap (λ b. done (ending transport s.failure b)) all,
      y ∙ ap (λ b. cut (ending transport s.failure b) b) all,
      z,
    )
