-- ===== src/Orchestrator/Playback/Cancel.antt =====
-- What a cancellation stops, and what a playback stores as said.
use fastapi_claude_voice_age.Base.{
  ◌≡◌, refl, ◌⊎◌, inl, inr, Bool, true, String, some, ℕ, List, [], ◌∷◌, ◌++◌, length, take, drop,
  leb, arith, Bool-cases,
}
use fastapi_claude_voice_age.Python.{Exn, Result-cases}
use fastapi_claude_voice_age.Orchestrator.Playback.Sections.{resume_cases}
use fastapi_claude_voice_age.Orchestrator.Playback.{
  at, abort, Transport, Wake, item, finished, returned, threw, Pc, fresh, receiving, sending,
  flushing, marking, persisting, done, Playback, is_done, cancel, start_playback, go, resume, play,
  give, sent_or, wire, send_audio, pump, chunk_bytes, finish,
}

-- The task is at its end, or a cancellation will come out of its next `await`.
abbrev pub IsSilent : Playback → Type 0
IsSilent p = (is_done p ≡ true) ⊎ (p.cancelling ≡ true)

pub cancel-IsSilent : (p : Playback) → IsSilent (cancel p)
unfolding cancel
cancel-IsSilent p = ground arith

module _ (transport : Transport) (sid : String) where
  pub resume-IsSilent :
      (p : Playback) (w : Wake)
      → IsSilent p
      → let r = resume transport sid p w in
        (r.sent ≡ []) × (r.stored ≡ []) × (is_done r.task ≡ true)
  unfolding resume
  resume-IsSilent p w h = elim (Bool-cases (is_done p)) [
    | inl e ↦ ground arith
    | inr e ↦ ground arith
  ]

  play-IsSilent :
      (p : Playback) (ws : List Wake)
      → IsSilent p
      → ((play transport sid p ws).sent ≡ []) × ((play transport sid p ws).stored ≡ [])
  unfolding play
  play-IsSilent p [] h = (refl, refl)
  play-IsSilent p (w ∷ ws) h =
      let first = resume-IsSilent p w h in
      ground (arith, first, play-IsSilent (resume transport sid p w).task ws (inl first.2))

  -- After `cancel`, whatever its awaits give, a playback sends no frame and stores no turn, and it is
  -- done the next time it runs.
  pub play-cancel :
      (p : Playback) (w : Wake) (ws : List Wake)
      → let r = play transport sid (cancel p) (w ∷ ws) in
        (r.sent ≡ []) × (r.stored ≡ []) × (is_done (resume transport sid (cancel p) w).task ≡ true)
  play-cancel p w ws =
      let quiet = play-IsSilent (cancel p) (w ∷ ws) (cancel-IsSilent p) in
      (quiet.0, quiet.1, (resume-IsSilent (cancel p) w (cancel-IsSilent p)).2)

  -- Only a task that stores its text stands in the `finally` block.
  abbrev Proper : Playback → Pc → Type 0
  Proper p (persisting e) = p.persist ≡ true
  Proper p _ = Unit

  -- What one section stores, and what stays as it was.
  abbrev Outcome : Playback → Playback → List String → Type 0
  Outcome p q stored =
      (q.text ≡ p.text)
      × (q.persist ≡ p.persist)
      × Proper q q.pc
      × ((stored ≡ []) ⊎ (((stored ≡ p.text ∷ []) × (p.persist ≡ true)) × (is_done q ≡ true)))

  give-Outcome :
      (p : Playback) (b : List ℕ) (next : Pc)
      → Proper p next
      → Outcome p (give transport sid p b next).task (give transport sid p b next).stored
  unfolding give sent_or finish at
  give-Outcome p b next u = elim (Result-cases (wire (send_audio transport sid b))) [
    | inl (payload, e) ↦ rw (e, give) (refl, refl, u, inl refl)
    | inr (x, e) ↦ rw (e, give) (ground arith)
  ]

  pump-Outcome :
      (p : Playback) (b : List ℕ)
      → Outcome p (pump transport sid p b).task (pump transport sid p b).stored
  unfolding pump at
  pump-Outcome p b = elim (Bool-cases (leb chunk_bytes (length b))) [
    | inl e ↦ rw (e, pump) (give-Outcome p (take chunk_bytes b) (sending (drop chunk_bytes b)) tt)
    | inr e ↦ rw (e, pump) (refl, refl, tt, inl refl)
  ]

  go-Outcome :
      (p : Playback) (pc : Pc) (w : Wake)
      → Proper p pc
      → Outcome p (go transport sid p pc w).task (go transport sid p pc w).stored
  unfolding go is_done
  go-Outcome p fresh w u = ground arith
  go-Outcome p (receiving b) (item pcm) u = pump-Outcome p (b ++ pcm)
  go-Outcome p (receiving []) finished u = ground arith
  go-Outcome p (receiving (b ∷ bs)) finished u = give-Outcome p (b ∷ bs) flushing tt
  go-Outcome p (receiving b) (threw e) u = ground arith
  go-Outcome p (receiving b) returned u = ground arith
  go-Outcome p (sending b) returned u = pump-Outcome p b
  go-Outcome p (sending b) (threw e) u = ground arith
  go-Outcome p (sending b) _ u = ground arith
  go-Outcome p flushing returned u = ground arith
  go-Outcome p flushing (threw e) u = ground arith
  go-Outcome p flushing _ u = ground arith
  go-Outcome p marking returned u = ground arith
  go-Outcome p marking (threw e) u = ground arith
  go-Outcome p marking _ u = ground arith
  go-Outcome p (persisting e) returned u = (refl, refl, tt, inr ((refl, u), refl))
  go-Outcome p (persisting e) (threw e') u = ground arith
  go-Outcome p (persisting e) _ u = (refl, refl, u, inl refl)
  go-Outcome p (done e) w u = ground arith

  resume-Outcome :
      (p : Playback) (w : Wake)
      → Proper p p.pc
      → Outcome p (resume transport sid p w).task (resume transport sid p w).stored
  unfolding at abort
  resume-Outcome p w u =
      resume_cases transport sid (λ r. Outcome p r.task r.stored) p w
        (λ _. (refl, refl, u, inl refl)) (refl, refl, tt, inl refl) (go-Outcome p p.pc w u)

  play_stored :
      (p : Playback) (ws : List Wake)
      → Proper p p.pc
      → ((play transport sid p ws).stored ≡ [])
        ⊎ (((play transport sid p ws).stored ≡ p.text ∷ []) × (p.persist ≡ true))
  unfolding play
  play_stored p [] u = inl refl
  play_stored p (w ∷ ws) u =
      let q = (resume transport sid p w).task in
      let first = resume-Outcome p w u in
      ground (
        arith,
        first,
        play_stored q ws first.2,
        λ (d : is_done q ≡ true). play-IsSilent q ws (inl d),
      )

  -- Whatever its awaits give, a playback stores nothing, or its own text once; and only one that was
  -- started with `persist_role="assistant"` stores anything.
  pub play-start_playback_stored :
      (text : String) (persist : Bool) (ws : List Wake)
      → let stored = (play transport sid (start_playback text persist) ws).stored in
        (stored ≡ []) ⊎ ((stored ≡ text ∷ []) × (persist ≡ true))
  unfolding start_playback
  play-start_playback_stored text persist ws = play_stored (start_playback text persist) ws tt

  -- If the speech synthesis of a text to be stored fails before its first audio, the text is stored
  -- as an assistant turn all the same, and no frame of it was sent.
  pub play_synthesis_failed :
      (text : String) (e : Exn)
      → let r =
          play transport sid (start_playback text true) (returned ∷ threw e ∷ returned ∷ []) in
        (r.sent ≡ []) × (r.stored ≡ text ∷ []) × (r.task.pc ≡ done (some e))
  unfolding play resume start_playback is_done
  play_synthesis_failed text e = (refl, refl, refl)
