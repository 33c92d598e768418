-- ===== src/Orchestrator/Playback/Frames.antt =====
-- The frames of one playback: full chunks, then at most one shorter rest, then at most one mark; and
-- no byte of the speech is lost, doubled or moved.
use fastapi_claude_voice_age.Base.{
  ℕ, ◌≡◌, refl, sym, ap, ◌∙◌, inl, inr, Bool, true, false, String, Option, none, some, List, [],
  ◌∷◌, ◌++◌, arith, leb, length, take-append-drop, Bool-cases, take, drop,
}
use mathlib.Core.List.{append-nil, append_assoc}
use fastapi_claude_voice_age.Python.{Exn, Result-cases}
use fastapi_claude_voice_age.Orchestrator.Playback.{
  Transport, twilio, webrtc, Frame, media, audio, mark, Wake, item, finished, returned, threw, Pc,
  fresh, receiving, sending, flushing, marking, persisting, done, Playback, Ran, chunk_bytes,
  is_done, send_audio, at, finish, send_mark, pump, flush, stored_turn, go, resume, play, wire,
  sent_or, give,
}

abbrev pub pcm_of : Frame → List ℕ
pcm_of (media sid b) = b
pcm_of (audio b) = b
pcm_of (mark sid name) = []

-- The audio bytes of some frames, in order.
abbrev pub bytes_of : List Frame → List ℕ
bytes_of [] = []
bytes_of (f ∷ fs) = pcm_of f ++ bytes_of fs

pub bytes_of-append : (fs gs : List Frame) → bytes_of (fs ++ gs) ≡ bytes_of fs ++ bytes_of gs
bytes_of-append [] gs = refl
bytes_of-append (f ∷ fs) gs =
    rw (bytes_of-append fs gs) (sym (append_assoc (pcm_of f) (bytes_of fs) (bytes_of gs)))

-- The bytes in `buffered`.
abbrev pub buffered_of : Pc → List ℕ
buffered_of (receiving b) = b
buffered_of (sending b) = b
buffered_of _ = []

-- The bytes that a section takes from the speech synthesis.
abbrev taken_at : Pc → Wake → List ℕ
taken_at (receiving b) (item pcm) = pcm
taken_at _ _ = []

-- The exception that ended the `try`, or the task.
abbrev pub failure : Pc → Option Exn
failure (persisting e) = e
failure (done e) = e
failure _ = none

abbrev pub is_failed : Pc → Bool
is_failed pc = elim (failure pc) [ some e ↦ true | none ↦ false ]

true-ne-false : ¬ (true ≡ false)
true-ne-false h = cc

splice : (a b c d e f : List ℕ) → b ++ c ≡ d ++ e → a ++ d ≡ f → (a ++ b) ++ c ≡ f ++ e
splice a b c d e f x y =
    append_assoc a b c ∙ (ap (◌++◌ a) x ∙ (sym (append_assoc a d e) ∙ ap (λ t. t ++ e) y))

module _ (transport : Transport) (sid : String) where
  -- The bytes that a task takes from the speech synthesis while it runs.
  pub taken : Playback → List Wake → List ℕ
  taken p [] = []
  taken p (w ∷ ws) = taken_at p.pc w ++ taken (resume transport sid p w).task ws

  pub pcm-send_audio : (b : List ℕ) → pcm_of (send_audio transport sid b) ≡ b
  unfolding send_audio
  pcm-send_audio b = elim transport as (λ t. pcm_of (send_audio t sid b) ≡ b) [
    | twilio ↦ refl
    | webrtc ↦ refl
  ]

  -- The bytes that a section sent, and those still in `buffered`, if nothing ended the `try`.
  Keeps : Ran → List ℕ → Type 0
  Keeps r b = is_failed r.task.pc ≡ false → bytes_of r.sent ++ buffered_of r.task.pc ≡ b

  give-Keeps :
      (p : Playback) (b : List ℕ) (next : Pc)
      → is_failed next ≡ false
      → Keeps (give transport sid p b next) (b ++ buffered_of next)
  unfolding Keeps give sent_or finish at
  give-Keeps p b next h =
      let f = send_audio transport sid b in
      elim (Result-cases (wire f)) [
        | inl (payload, e) ↦ λ k. rw (e, give, pcm-send_audio, append-nil) refl
        | inr (x, e) ↦ λ k. absurd (true-ne-false (ground (arith, e, k)))
      ]

  pump-Keeps : (p : Playback) (b : List ℕ) → Keeps (pump transport sid p b) b
  unfolding pump at Keeps
  pump-Keeps p b = elim (Bool-cases (leb chunk_bytes (length b))) [
    | inl e ↦ λ h.
        rw (e, pump)
          (give-Keeps p (take chunk_bytes b) (sending (drop chunk_bytes b)) refl (rw (e, pump) at h)
            ∙ take-append-drop chunk_bytes b)
    | inr e ↦ λ h. ground (arith, e)
  ]

  go-bytes :
      (p : Playback) (pc : Pc) (w : Wake)
      → is_failed (go transport sid p pc w).task.pc ≡ false
      → bytes_of (go transport sid p pc w).sent ++ buffered_of (go transport sid p pc w).task.pc
        ≡ buffered_of pc ++ taken_at pc w
  unfolding go flush send_mark finish at stored_turn Keeps
  go-bytes p fresh w h = refl
  go-bytes p (receiving b) (item pcm) h = pump-Keeps p (b ++ pcm) h
  go-bytes p (receiving []) finished h = ground arith
  go-bytes p (receiving (b ∷ bs)) finished h = give-Keeps p (b ∷ bs) flushing refl h
  go-bytes p (receiving b) (threw e) h = ground arith
  go-bytes p (receiving b) returned h = sym (append-nil b)
  go-bytes p (sending b) returned h = pump-Keeps p b h ∙ sym (append-nil b)
  go-bytes p (sending b) (threw e) h = ground arith
  go-bytes p (sending b) _ h = sym (append-nil b)
  go-bytes p flushing returned h = ground arith
  go-bytes p flushing (threw e) h = ground arith
  go-bytes p flushing _ h = refl
  go-bytes p marking returned h = ground arith
  go-bytes p marking (threw e) h = ground arith
  go-bytes p marking _ h = refl
  go-bytes p (persisting e) returned h = refl
  go-bytes p (persisting e) (threw e') h = refl
  go-bytes p (persisting e) _ h = refl
  go-bytes p (done e) w h = refl

  done-go :
      (p : Playback) (pc : Pc) (w : Wake)
      → is_done (record p { pc = pc }) ≡ true
      → at transport sid p pc [] ≡ go transport sid p pc w
  unfolding is_done go
  done-go p (done e) w h = refl
  done-go p _ w h = cc

  pub resume-go :
      (p : Playback) (w : Wake)
      → p.cancelling ≡ false
      → resume transport sid p w ≡ go transport sid p p.pc w
  unfolding resume
  resume-go p w h = elim (Bool-cases (is_done p)) [
    | inl e ↦ rw (e, resume) (done-go p p.pc w e)
    | inr e ↦ rw (e, resume, h)
  ]

  give-cancelling :
      (p : Playback) (b : List ℕ) (next : Pc)
      → (give transport sid p b next).task.cancelling ≡ p.cancelling
  unfolding give sent_or finish at
  give-cancelling p b next = elim (Result-cases (wire (send_audio transport sid b))) [
    | inl (payload, e) ↦ rw (e, give) refl
    | inr (x, e) ↦ rw (e, give) refl
  ]

  pump-cancelling :
      (p : Playback) (b : List ℕ) → (pump transport sid p b).task.cancelling ≡ p.cancelling
  unfolding pump at
  pump-cancelling p b = elim (Bool-cases (leb chunk_bytes (length b))) [
    | inl e ↦ rw (e, pump) (give-cancelling p (take chunk_bytes b) (sending (drop chunk_bytes b)))
    | inr e ↦ rw (e, pump) refl
  ]

  pub go-cancelling :
      (p : Playback) (pc : Pc) (w : Wake) → (go transport sid p pc w).task.cancelling ≡ p.cancelling
  unfolding go
  go-cancelling p fresh w = refl
  go-cancelling p (receiving b) (item pcm) = pump-cancelling p (b ++ pcm)
  go-cancelling p (receiving []) finished = ground arith
  go-cancelling p (receiving (b ∷ bs)) finished = give-cancelling p (b ∷ bs) flushing
  go-cancelling p (receiving b) _ = ground arith
  go-cancelling p (sending b) returned = pump-cancelling p b
  go-cancelling p (sending b) _ = ground arith
  go-cancelling p flushing returned = ground arith
  go-cancelling p flushing _ = ground arith
  go-cancelling p marking returned = ground arith
  go-cancelling p marking _ = ground arith
  go-cancelling p (persisting e) returned = refl
  go-cancelling p (persisting e) _ = ground arith
  go-cancelling p (done e) w = refl

  -- A failure stays a failure.
  go-is_failed :
      (p : Playback) (pc : Pc) (w : Wake)
      → is_failed pc ≡ true
      → is_failed (go transport sid p pc w).task.pc ≡ true
  unfolding go
  go-is_failed p (persisting e) returned h = h
  go-is_failed p (persisting e) (threw e') h = refl
  go-is_failed p (persisting e) _ h = h
  go-is_failed p (done e) w h = h
  go-is_failed p _ w h = cc

  play-is_failed :
      (p : Playback) (ws : List Wake)
      → p.cancelling ≡ false
      → is_failed p.pc ≡ true
      → is_failed (play transport sid p ws).task.pc ≡ true
  unfolding play
  play-is_failed p [] c h = h
  play-is_failed p (w ∷ ws) c h = rw (resume-go p w c) (
      play-is_failed (go transport sid p p.pc w).task ws (go-cancelling p p.pc w ∙ c)
        (go-is_failed p p.pc w h))

  -- If no cancellation is asked for and no exception ends the task, then whatever its awaits give, the
  -- audio bytes that it sends, followed by those still in `buffered`, are those that were in
  -- `buffered` and those that it took from the speech synthesis since, in order.
  pub bytes_of-play :
      (p : Playback) (ws : List Wake)
      → p.cancelling ≡ false
      → is_failed (play transport sid p ws).task.pc ≡ false
      → bytes_of (play transport sid p ws).sent ++ buffered_of (play transport sid p ws).task.pc
        ≡ buffered_of p.pc ++ taken p ws
  unfolding play taken
  bytes_of-play p [] c h = sym (append-nil (buffered_of p.pc))
  bytes_of-play p (w ∷ ws) c h =
      let first = go transport sid p p.pc w in
      let rest = play transport sid first.task ws in
      let c' = go-cancelling p p.pc w ∙ c in
      elim (Bool-cases (is_failed first.task.pc)) [
        | inl e ↦
            absurd
              (true-ne-false (sym (play-is_failed first.task ws c' e) ∙ rw (resume-go p w c) at h))
        | inr e ↦ rw (resume-go p w c) (
            ap (λ t. t ++ buffered_of rest.task.pc) (bytes_of-append first.sent rest.sent)
            ∙ (splice (bytes_of first.sent) (bytes_of rest.sent) (buffered_of rest.task.pc)
                  (buffered_of first.task.pc) (taken first.task ws)
                  (buffered_of p.pc ++ taken_at p.pc w)
                  (bytes_of-play first.task ws c' (rw (resume-go p w c) at h)) (go-bytes p p.pc w e)
                ∙ append_assoc (buffered_of p.pc) (taken_at p.pc w) (taken first.task ws)))
      ]
