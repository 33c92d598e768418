-- ===== src/Orchestrator/Playback/Shape.antt =====
-- The frames of one playback as the caller's side sees them.
use fastapi_claude_voice_age.Base.{
  ℕ, ◌<◌, ◌≡◌, ◌⊎◌, refl, ◌∙◌, inl, inr, Bool, ◌&&◌, String, Option, none, some, List, [], ◌∷◌,
  ◌++◌, arith, leb, leb→le, ltb, Option-cases, eqb, ◌==◌, eq_iff, length, take, drop, length-take,
  if◌then◌else◌, Bool-cases,
}
use fastapi_claude_voice_age.Python.{Exn, Result-cases}
use fastapi_claude_voice_age.Orchestrator.Playback.Sections.{resume_cases}
use fastapi_claude_voice_age.Orchestrator.Playback.{
  abort, Transport, twilio, webrtc, Frame, media, audio, mark, Wake, item, finished, returned,
  threw, Pc, fresh, receiving, sending, flushing, marking, persisting, done, Playback, Ran,
  chunk_bytes, start_playback, send_audio, at, finish, send_mark, pump, go, resume, play, wire,
  sent_or, give,
}

-- `streaming`: full chunks may follow, or a rest. `flushed`: the rest was sent. `marked`: the mark was.
pub data Stage : Type 0 where
  streaming flushed marked : Stage

-- What may follow a chunk of some bytes: one of 3200 bytes, any number of times, or a shorter one that is not empty, once.
abbrev pub after_chunk : Stage → List ℕ → Option Stage
after_chunk streaming b =
    if eqb (length b) chunk_bytes
    then some streaming
    else if ltb 0 (length b) && ltb (length b) chunk_bytes
    then some flushed
    else none
after_chunk _ b = none

abbrev pub after_mark : Stage → Option Stage
after_mark marked = none
after_mark _ = some marked

-- The frames that one utterance may consist of: on Twilio, media and a mark with the stream's id; in
-- the browser, audio alone. `none` is a frame out of place.
unfoldable pub accept : Transport → String → Stage → Frame → Option Stage
accept twilio sid st (media s b) = if s == sid then after_chunk st b else none
accept twilio sid st (mark s name) = if s == sid && name == "eot" then after_mark st else none
accept webrtc sid st (audio b) = after_chunk st b
accept _ sid st _ = none

unfoldable pub watch : Transport → String → Stage → List Frame → Option Stage
unfolding accept
watch t sid st [] = some st
watch t sid st (f ∷ fs) = elim (accept t sid st f) [ none ↦ none | some st' ↦ watch t sid st' fs ]

module _ (transport : Transport) (sid : String) where
  abbrev Stands : Pc → Stage → Type 0
  Stands fresh st = st ≡ streaming
  Stands (receiving b) st = (st ≡ streaming) × (length b < chunk_bytes)
  Stands (sending b) st = st ≡ streaming
  Stands flushing st = st ≡ flushed
  Stands _ st = Unit

  accept-full :
      (b : List ℕ)
      → length b ≡ chunk_bytes
      → accept transport sid streaming (send_audio transport sid b) ≡ some streaming
  unfolding accept send_audio
  accept-full b h =
      elim transport as (λ t. accept t sid streaming (send_audio t sid b) ≡ some streaming) [
        | twilio ↦ ground (arith, eq_iff sid sid)
        | webrtc ↦ ground arith
      ]

  accept-rest :
      (b : List ℕ)
      → 0 < length b
      → length b < chunk_bytes
      → accept transport sid streaming (send_audio transport sid b) ≡ some flushed
  unfolding accept send_audio
  accept-rest b h k =
      elim transport as (λ t. accept t sid streaming (send_audio t sid b) ≡ some flushed) [
        | twilio ↦ ground (arith, eq_iff sid sid)
        | webrtc ↦ ground arith
      ]

  watch-one :
      (st : Stage) (f : Frame) {st' : Stage}
      → accept transport sid st f ≡ some st'
      → watch transport sid st (f ∷ []) ≡ some st'
  unfolding watch
  watch-one st f h = ground arith

  watch-append :
      (st : Stage) (fs gs : List Frame) (st' : Stage)
      → watch transport sid st fs ≡ some st'
      → watch transport sid st (fs ++ gs) ≡ watch transport sid st' gs
  unfolding watch
  watch-append st [] gs st' h = ground arith
  watch-append st (f ∷ fs) gs st' h = elim (Option-cases (accept transport sid st f)) [
    | inl e ↦ ground arith
    | inr (s, e) ↦ ground (arith, watch-append s fs gs st')
  ]

  -- The stage after a section's frames.
  abbrev Watched : Stage → Ran → Type 0
  Watched st r = (st' : Stage) × (watch transport sid st r.sent ≡ some st') × Stands r.task.pc st'

  finish-Stands :
      (p : Playback) (e : Option Exn) (st : Stage) → Stands (finish transport sid p e []).task.pc st
  unfolding finish at
  finish-Stands p e st = ground arith

  finish-Watched :
      (p : Playback) (e : Option Exn) (st : Stage) → Watched st (finish transport sid p e [])
  unfolding finish watch at
  finish-Watched p e st = (st, refl, finish-Stands p e st)

  give-Watched :
      (p : Playback) (b : List ℕ) (next : Pc) (st st' : Stage)
      → accept transport sid st (send_audio transport sid b) ≡ some st'
      → Stands next st'
      → Watched st (give transport sid p b next)
  unfolding give sent_or at
  give-Watched p b next st st' h k = elim (Result-cases (wire (send_audio transport sid b))) [
    | inl (payload, e) ↦ rw (e, give) (st', watch-one st (send_audio transport sid b) h, k)
    | inr (x, e) ↦ rw (e, give) (finish-Watched p (some x) st)
  ]

  pump-Watched : (p : Playback) (b : List ℕ) → Watched streaming (pump transport sid p b)
  unfolding pump at watch
  pump-Watched p b = elim (Bool-cases (leb chunk_bytes (length b))) [
    | inl e ↦
        rw (e, pump)
          (give-Watched p (take chunk_bytes b) (sending (drop chunk_bytes b)) streaming streaming
            (accept-full (take chunk_bytes b)
              (length-take chunk_bytes b ∙ omega (arith, leb→le chunk_bytes (length b) e)))
            refl)
    | inr e ↦ rw (e, pump) (streaming, refl, (refl, ground arith))
  ]

  send_mark-Watched :
      (p : Playback) (st : Stage)
      → (st ≡ streaming) ⊎ (st ≡ flushed)
      → Watched st (send_mark transport sid p [])
  unfolding send_mark watch accept finish at
  send_mark-Watched p st h =
      elim transport
        as (λ t.
          (st' : Stage) × (watch t sid st (send_mark t sid p []).sent ≡ some st')
          × Stands (send_mark t sid p []).task.pc st') [
            | twilio ↦ (marked, ground (arith, eq_iff sid sid), tt)
            | webrtc ↦ (st, refl, ground arith)
          ]

  go-Watched :
      (p : Playback) (pc : Pc) (w : Wake) (st : Stage)
      → Stands pc st
      → Watched st (go transport sid p pc w)
  unfolding go watch
  go-Watched p fresh w st h = (st, refl, (h, omega arith))
  go-Watched p (receiving b) (item pcm) st h = rw h.0 (pump-Watched p (b ++ pcm))
  go-Watched p (receiving []) finished st h = send_mark-Watched p st (inl h.0)
  go-Watched p (receiving (b ∷ bs)) finished st h = rw h.0 (
      give-Watched p (b ∷ bs) flushing streaming flushed (accept-rest (b ∷ bs) (omega arith) h.1)
        refl)
  go-Watched p (receiving b) (threw e) st h = finish-Watched p (some e) st
  go-Watched p (receiving b) returned st h = (st, refl, h)
  go-Watched p (sending b) returned st h = rw h (pump-Watched p b)
  go-Watched p (sending b) (threw e) st h = finish-Watched p (some e) st
  go-Watched p (sending b) _ st h = (st, refl, h)
  go-Watched p flushing returned st h = send_mark-Watched p st (inr h)
  go-Watched p flushing (threw e) st h = finish-Watched p (some e) st
  go-Watched p flushing _ st h = (st, refl, h)
  go-Watched p marking returned st h = finish-Watched p none st
  go-Watched p marking (threw e) st h = finish-Watched p (some e) st
  go-Watched p marking _ st h = (st, refl, h)
  go-Watched p (persisting e) returned st h = (st, refl, tt)
  go-Watched p (persisting e) (threw e') st h = (st, refl, tt)
  go-Watched p (persisting e) _ st h = (st, refl, tt)
  go-Watched p (done e) w st h = (st, refl, tt)

  resume-Watched :
      (p : Playback) (w : Wake) (st : Stage)
      → Stands p.pc st
      → Watched st (resume transport sid p w)
  unfolding watch at abort
  resume-Watched p w st h =
      resume_cases transport sid (Watched st) p w (λ _. (st, refl, h)) (st, refl, tt)
        (go-Watched p p.pc w st h)

  play-Watched :
      (p : Playback) (ws : List Wake) (st : Stage)
      → Stands p.pc st
      → (st' : Stage) × (watch transport sid st (play transport sid p ws).sent ≡ some st')
  unfolding play watch
  play-Watched p [] st h = (st, refl)
  play-Watched p (w ∷ ws) st h =
      let (st1, e, h1) = resume-Watched p w st h in
      let (st2, e2) = play-Watched (resume transport sid p w).task ws st1 h1 in
      (st2, watch-append st (resume transport sid p w).sent _ st1 e ∙ e2)

  -- Whatever the awaits of a playback give, its frames are audio of 3200 bytes each, then at most one
  -- audio frame that is shorter and not empty, then, on Twilio, at most one mark `eot`; each media
  -- frame and mark has the stream's id.
  pub watch-play :
      (text : String) (persist : Bool) (ws : List Wake)
      → (st : Stage) × (watch transport sid streaming
            (play transport sid (start_playback text persist) ws).sent
          ≡ some st)
  unfolding start_playback
  watch-play text persist ws = play-Watched (start_playback text persist) ws streaming refl
