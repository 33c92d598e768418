-- ===== src/Orchestrator/Playback/Speech/Reached.antt =====
-- What of a synthesized speech is heard at the other side of the socket.
use fastapi_claude_voice_age.Base.{
  ◌≡◌, refl, sym, ap, subst, ◌∙◌, inl, inr, ℕ, zero, suc, ◌+◌, ◌*◌, ◌/◌, ◌%◌, ◌<◌, ◌≤◌, Bool,
  String, Option, none, some, List, [], ◌∷◌, length, length-take, take, arith, All, All-split,
  Bool-cases, take-append-drop, drop,
}
use fastapi_claude_voice_age.Python.{Exn, ok}
use fastapi_claude_voice_age.Tts.{Answer, synthesize_stream}
use fastapi_claude_voice_age.Orchestrator.Playback.{
  Transport, twilio, webrtc, Frame, Wake, Playback, resume, play, start_playback,
}
use fastapi_claude_voice_age.Orchestrator.Playback.Shape.{Stage, streaming, watch, watch-play}
use fastapi_claude_voice_age.Orchestrator.Playback.Wire.{refuses}
use fastapi_claude_voice_age.Orchestrator.Playback.Speech.{next, perform}
use fastapi_claude_voice_age.Orchestrator.Playback.Speech.Chunks.{concat, whole, cut, ending}
use fastapi_claude_voice_age.Orchestrator.Playback.Speech.Answered.{body, heard, perform-heard}
use fastapi_claude_voice_age.Orchestrator.Playback.Speech.Payloads.{
  sounds, sounds-webrtc, sounds-twilio,
}

module _ (transport : Transport) (sid : String) where
  -- What the awaits of a playback over a speech give.
  wakes : ℕ → Playback → List (List ℕ) → Option Exn → List Wake
  unfolding next
  wakes zero p cs e = []
  wakes (suc n) p cs e =
      let (w, rest) = next p.pc cs e in w ∷ wakes n (resume transport sid p w).task rest e

  perform-play :
      (n : ℕ) (p : Playback) (cs : List (List ℕ)) (e : Option Exn)
      → perform transport sid n p cs e ≡ play transport sid p (wakes n p cs e)
  unfolding perform play wakes
  perform-play zero p cs e = refl
  perform-play (suc n) p cs e =
      let (w, rest) = next p.pc cs e in
      rw (perform-play n (resume transport sid p w).task rest e) refl

-- Whole samples.
length-whole : (xs : List ℕ) → length (whole xs) % 2 ≡ 0
unfolding whole
length-whole xs = let n = length xs / 3200 * 3200 in omega (arith, length-take n xs)

length-cut : (e : Option Exn) (xs : List ℕ) → length (cut (ending twilio e xs) xs) % 2 ≡ 0
length-cut (some x) xs = length-whole xs
length-cut none xs = elim (Bool-cases (refuses twilio xs)) [
  | inl e ↦ rw e (length-whole xs)
  | inr e ↦ rw e (ground (arith, e))
]

All-cut : (e : Option Exn) (xs : List ℕ) → All (λ x. x < 256) xs → All (λ x. x < 256) (cut e xs)
unfolding whole
All-cut none xs h = h
All-cut (some x) xs h =
    let n = length xs / 3200 * 3200 in
    (All-split (λ x. x < 256) (take n xs) (drop n xs)
      (subst (λ ys. All (λ x. x < 256) ys) (sym (take-append-drop n xs)) h)).0

module _ (sid : String) (number_text : ℕ → String) (a : Answer) (text : String) (persist : Bool)
    (n : ℕ) where
  -- The frames of the playback of the answer.
  abbrev pub frames : Transport → List Frame
  frames t =
      let s = synthesize_stream number_text a in
      (perform t sid n (start_playback text persist) s.pcm s.failure).sent

  watched : (t : Transport) → (st : Stage) × (watch t sid streaming (frames t) ≡ some st)
  watched t =
      let s = synthesize_stream number_text a in
      subst (λ r. (st : Stage) × (watch t sid streaming r.sent ≡ some st))
        (sym (perform-play t sid n (start_playback text persist) s.pcm s.failure))
        (watch-play t sid text persist
          (wakes t sid n (start_playback text persist) s.pcm s.failure))

  -- If the body of an answer consists of bytes, then once a playback of it is at its end, with nothing
  -- that cancelled it and each send gone through, the browser has got the bytes of the body, or if the
  -- body broke off its full chunks, or nothing if the status was not 200; and Twilio has got one byte
  -- of μ-law for each four of those, rounded up, which on Twilio are the full chunks alone also if the
  -- body has an odd number of bytes.
  pub sounds-perform :
      length (synthesize_stream number_text a).pcm
          + length (concat (synthesize_stream number_text a).pcm)
          + 6
        ≤ n
      → All (λ x. x < 256) (body a)
      → (sounds webrtc (frames webrtc) ≡ ok (heard webrtc number_text a))
        × ((us : List ℕ) × (sounds twilio (frames twilio) ≡ ok us)
            × (length us ≡ (length (heard twilio number_text a) + 2) / 4))
  unfolding heard
  sounds-perform l bytes =
      let e = (synthesize_stream number_text a).failure in
      let web = (perform-heard webrtc sid number_text a text persist n l).1 in
      let phone = (perform-heard twilio sid number_text a text persist n l).1 in
      let (st, w) = watched webrtc in
      let (st', w') = watched twilio in
      let all =
        subst (λ xs. All (λ x. x < 256) xs) (sym web)
          (All-cut (ending webrtc e (body a)) (body a) bytes) in
      let even = subst (λ xs. length xs % 2 ≡ 0) (sym phone) (length-cut e (body a)) in
      let (us, x, y) = sounds-twilio sid (frames twilio) st' w' even in
      (
        sounds-webrtc sid (frames webrtc) streaming st w all ∙ ap ok web,
        (us, x, y ∙ ap (λ xs. (length xs + 2) / 4) phone),
      )
