-- ===== src/Orchestrator/Playback/Speech/Payloads.antt =====
-- What the other side of the socket makes of a playback's messages.
use fastapi_claude_voice_age.Base.{
  ◌≡◌, refl, sym, ap, ◌∙◌, inl, inr, ℕ, ◌+◌, ◌/◌, ◌%◌, ◌<◌, eqb, eqb→eq, String, Option, some, List,
  [], ◌∷◌, ◌++◌, length, length-append, subst, ◌⊎◌, arith, All, All-split, Option-cases, Bool-cases,
}
use mathlib.Core.List.{append-nil}
use fastapi_claude_voice_age.Python.{Json, str, obj, Result, ok, ◌>>=◌, get}
use fastapi_claude_voice_age.Python.Base64.{b64decode}
use fastapi_claude_voice_age.Python.Base64.RoundTrip.{b64decode-b64encode}
use fastapi_claude_voice_age.Audio.Outgoing.{payload_sized}
use fastapi_claude_voice_age.Orchestrator.Playback.{
  Transport, twilio, webrtc, Frame, media, audio, mark, wire, media_message,
}
use fastapi_claude_voice_age.Orchestrator.Playback.Frames.{bytes_of}
use fastapi_claude_voice_age.Orchestrator.Playback.Shape.{
  Stage, streaming, flushed, marked, accept, watch,
}

-- The bytes under the key `payload`.
abbrev pub payload_in : Option Json → Result (List ℕ)
payload_in (some (str s)) = b64decode s
payload_in _ = ok []

-- The audio bytes of one message, as Twilio and the browser look for them: μ-law and PCM16.
abbrev pub sound : Transport → Json → Result (List ℕ)
sound webrtc (obj d) = payload_in (get "payload" d)
sound twilio (obj d) = elim (get "media" d) [
  | some (obj m) ↦ payload_in (get "payload" m)
  | _ ↦ ok []
]
sound _ _ = ok []

-- The audio of some frames, each made a message and read.
unfoldable pub sounds : Transport → List Frame → Result (List ℕ)
sounds t [] = ok []
sounds t (f ∷ fs) = do
  message ← wire f
  heard ← sound t message
  rest ← sounds t fs
  ok (heard ++ rest)

-- In the browser.
sound_audio : (b : List ℕ) → All (λ x. x < 256) b → (wire (audio b) >>= sound webrtc) ≡ ok b
unfolding wire get
sound_audio b h = b64decode-b64encode b h

module _ (sid : String) where
  accepted_next :
      (t : Transport) (st : Stage) (f : Frame) (fs : List Frame) (st' : Stage)
      → watch t sid st (f ∷ fs) ≡ some st'
      → (next : Stage) × (accept t sid st f ≡ some next) × (watch t sid next fs ≡ some st')
  unfolding watch
  accepted_next t st f fs st' h = elim (Option-cases (accept t sid st f)) [
    | inl e ↦ ground (arith, e, h)
    | inr (next, e) ↦ (next, e, ground (arith, e, h))
  ]

  pub sounds-webrtc :
      (fs : List Frame) (st st' : Stage)
      → watch webrtc sid st fs ≡ some st'
      → All (λ x. x < 256) (bytes_of fs)
      → sounds webrtc fs ≡ ok (bytes_of fs)
  unfolding sounds wire get accept
  sounds-webrtc [] st st' h b = refl
  sounds-webrtc (media s pcm ∷ fs) st st' h b =
      let (next, e, k) = accepted_next webrtc st (media s pcm) fs st' h in
      absurd (ground (arith, e))
  sounds-webrtc (audio pcm ∷ fs) st st' h b =
      let (next, e, k) = accepted_next webrtc st (audio pcm) fs st' h in
      let (now, later) = All-split (λ x. x < 256) pcm (bytes_of fs) b in
      rw (b64decode-b64encode pcm now, sounds-webrtc fs next st' k later) refl
  sounds-webrtc (mark s name ∷ fs) st st' h b =
      let (next, e, k) = accepted_next webrtc st (mark s name) fs st' h in
      absurd (ground (arith, e))

  accepted_mark :
      (st next : Stage) (s name : String)
      → accept twilio sid st (mark s name) ≡ some next
      → next ≡ marked
  unfolding accept
  accepted_mark streaming next s name h = ground (arith, h)
  accepted_mark flushed next s name h = ground (arith, h)
  accepted_mark marked next s name h = absurd (ground (arith, h))

  accepted_media :
      (st next : Stage) (s : String) (pcm : List ℕ)
      → accept twilio sid st (media s pcm) ≡ some next
      → (st ≡ streaming) × (((length pcm ≡ 3200) × (next ≡ streaming)) ⊎ (next ≡ flushed))
  unfolding accept
  accepted_media streaming next s pcm h = elim (Bool-cases (eqb (length pcm) 3200)) [
    | inl e ↦ (refl, inl (eqb→eq (length pcm) 3200 e, ground (arith, h, e)))
    | inr e ↦ (refl, inr (ground (arith, h, e)))
  ]
  accepted_media flushed next s pcm h = absurd (ground (arith, h))
  accepted_media marked next s pcm h = absurd (ground (arith, h))

  -- After a rest or a mark there is no more audio.
  silent_after :
      (fs : List Frame) (st st' : Stage)
      → watch twilio sid st fs ≡ some st'
      → ¬ (st ≡ streaming)
      → (bytes_of fs ≡ []) × (sounds twilio fs ≡ ok [])
  unfolding sounds wire get accept media_message
  silent_after [] st st' h n = (refl, refl)
  silent_after (media s pcm ∷ fs) st st' h n =
      let (next, e, k) = accepted_next twilio st (media s pcm) fs st' h in
      absurd (n (accepted_media st next s pcm e).0)
  silent_after (audio pcm ∷ fs) st st' h n =
      let (next, e, k) = accepted_next twilio st (audio pcm) fs st' h in absurd (ground (arith, e))
  silent_after (mark s name ∷ fs) st st' h n =
      let (next, e, k) = accepted_next twilio st (mark s name) fs st' h in
      let over = accepted_mark st next s name e in
      let (none_left, quiet) = silent_after fs next st' k (λ x. ground (arith, over, x)) in
      (none_left, rw quiet refl)

  -- One media message before others.
  sounds-media :
      (s : String) (pcm us : List ℕ) (fs : List Frame)
      → length pcm % 2 ≡ 0
      → sounds twilio fs ≡ ok us
      → (vs : List ℕ) × (sounds twilio (media s pcm ∷ fs) ≡ ok (vs ++ us))
        × (length vs ≡ (length pcm + 2) / 4)
  unfolding sounds wire get media_message
  sounds-media s pcm us fs even h =
      let (payload, vs, e, d, l) = payload_sized pcm even in (vs, rw (e, d, h) refl, l)

  pub sounds-twilio :
      (fs : List Frame) (st' : Stage)
      → watch twilio sid streaming fs ≡ some st'
      → length (bytes_of fs) % 2 ≡ 0
      → (us : List ℕ) × (sounds twilio fs ≡ ok us) × (length us ≡ (length (bytes_of fs) + 2) / 4)
  unfolding sounds wire get accept media_message
  sounds-twilio [] st' h b = ([], refl, refl)
  sounds-twilio (media s pcm ∷ fs) st' h b =
      let (next, e, k) = accepted_next twilio streaming (media s pcm) fs st' h in
      elim (accepted_media streaming next s pcm e).1 [
        | inl (full, same) ↦
            let more = length-append pcm (bytes_of fs) in
            let (us, e, l) =
              sounds-twilio fs st' (subst (λ n. watch twilio sid n fs ≡ some st') same k)
                (omega (arith, b, full, more)) in
            let (vs, e', l') = sounds-media s pcm us fs (omega (arith, full)) e in
            (vs ++ us, e', omega (arith, l, l', full, more, length-append vs us))
        | inr over ↦
            let (none_left, quiet) = silent_after fs next st' k (λ x. ground (arith, over, x)) in
            let all = ap (λ x. pcm ++ x) none_left ∙ append-nil pcm in
            let (vs, e', l') =
              sounds-media s pcm [] fs (subst (λ x. length x % 2 ≡ 0) all b) quiet in
            (vs, e' ∙ ap ok (append-nil vs), l' ∙ ap (λ x. (length x + 2) / 4) (sym all))
      ]
  sounds-twilio (audio pcm ∷ fs) st' h b =
      let (next, e, k) = accepted_next twilio streaming (audio pcm) fs st' h in
      absurd (ground (arith, e))
  sounds-twilio (mark s name ∷ fs) st' h b =
      let (next, e, k) = accepted_next twilio streaming (mark s name) fs st' h in
      let over = accepted_mark streaming next s name e in
      let (none_left, quiet) = silent_after fs next st' k (λ x. ground (arith, over, x)) in
      ([], rw quiet refl, rw none_left refl)
