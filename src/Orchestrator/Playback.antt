-- ===== src/Orchestrator/Playback.antt =====
-- `_run_playback`, `_send_audio` and `_send_mark`: one utterance as a cancellable task.
-- The task is a state machine. It runs from one `await` to the next without a break, and a `Wake` is
-- what the `await` gave. A cancellation that was asked for comes out of that `await` in its place.
pub mod Sections
pub mod Wire
pub mod Frames
pub mod Shape
pub mod Cancel
pub mod Speech
use fastapi_claude_voice_age.Base.{
  ℕ, ◌-◌, Bool, true, false, ◌&&◌, not, String, Option, none, some, List, [], ◌∷◌, ◌++◌, leb,
  length, take, drop, if◌then◌else◌,
}
use fastapi_claude_voice_age.Python.{
  Exn, Json, str, obj, Fields, field, end, Result, ok, raise, ◌>>=◌,
}
use fastapi_claude_voice_age.Python.Base64.{b64encode}
use fastapi_claude_voice_age.Audio.{pcm16_to_ulaw_b64}

pub data Transport : Type 0 where
  twilio webrtc : Transport

-- What goes out on the socket, with the PCM16 bytes that `_send_audio` was given; `wire` is the value
-- that `json.dumps` gets.
pub data Frame : Type 0 where
  media : (stream_sid : String) (pcm16 : List ℕ) → Frame
  audio : (pcm16 : List ℕ) → Frame
  mark : (stream_sid name : String) → Frame

-- `item` and `finished` come from the speech synthesis, `returned` from a send or the database, and
-- `threw` from any of them.
pub data Wake : Type 0 where
  item : List ℕ → Wake
  finished returned : Wake
  threw : Exn → Wake

-- Where the task stands, with the bytes in `buffered`: not yet run; in the `async for`; in a send of
-- the `while`; in the send of the rest; in `_send_mark`; in the `finally` block, with the exception
-- that goes on after it; at its end, with the exception that left it.
pub data Pc : Type 0 where
  fresh : Pc
  receiving sending : (buffered : List ℕ) → Pc
  flushing marking : Pc
  persisting : Option Exn → Pc
  done : Option Exn → Pc

-- `persist` stands for `persist_role == "assistant"`; `cancelling` is a cancellation asked for.
pub record Playback : Type 0 where
  pub text : String
  pub persist : Bool
  pub pc : Pc
  pub cancelling : Bool

-- The section's outcome: the task after it, the frames that it sent, and the transcript turns that it
-- stored.
pub record Ran : Type 0 where
  pub task : Playback
  pub sent : List Frame
  pub stored : List String

abbrev pub chunk_bytes : ℕ
chunk_bytes = 3200

unfoldable pub is_done : Playback → Bool
is_done p = elim p.pc [ done e ↦ true | _ ↦ false ]

-- `task.cancel()`; nothing happens to a task that is done.
unfoldable pub cancel : Playback → Playback
unfolding is_done
cancel p = if is_done p then p else record p { cancelling = true }

unfoldable pub start_playback : String → Bool → Playback
start_playback text persist = record {
  text = text;
  persist = persist;
  pc = fresh;
  cancelling = false;
}

unfoldable pub send_audio : Transport → String → List ℕ → Frame
send_audio twilio sid pcm16 = media sid pcm16
send_audio webrtc sid pcm16 = audio pcm16

abbrev pub text_under : String → String → Json
text_under key s = obj (field key (str s) end)

unfoldable pub media_message : (stream_sid payload : String) → Json
media_message sid payload = obj (
    field "event" (str "media")
      (field "streamSid" (str sid) (field "media" (text_under "payload" payload) end)))

-- The payload is made before anything is sent: PCM16 that `audioop` refuses raises here.
unfoldable pub wire : Frame → Result Json
unfolding pcm16_to_ulaw_b64 b64encode media_message
wire (media sid pcm16) = do payload ← pcm16_to_ulaw_b64 pcm16; ok (media_message sid payload)
wire (audio pcm16) =
    ok (obj (field "type" (str "audio") (field "payload" (str (b64encode pcm16)) end)))
wire (mark sid name) = ok (
    obj (
      field "event" (str "mark")
        (field "streamSid" (str sid) (field "mark" (text_under "name" name) end))))

module _ (transport : Transport) (sid : String) where
  pub at : Playback → Pc → List Frame → Ran
  at p pc sent = record { task = record p { pc = pc }; sent = sent; stored = [] }

  -- `finally`, without a cancellation
  finish : Playback → Option Exn → List Frame → Ran
  unfolding at
  finish p e sent = at p (if p.persist then persisting e else done e) sent

  -- `_send_mark("eot")`, and the end of the `try`
  send_mark : Playback → List Frame → Ran
  unfolding finish
  send_mark p sent = elim transport [
    | twilio ↦ at p marking (sent ++ (mark sid "eot" ∷ []))
    | webrtc ↦ finish p none sent
  ]

  -- Where the task stands once its frame has its payload, or has none.
  pub sent_or : Result Json → Playback → Frame → Pc → Ran
  unfolding at finish
  sent_or (ok payload) p f next = at p next (f ∷ [])
  sent_or (raise x) p f next = finish p (some x) []

  -- `await self._send_audio(pcm16)`
  pub give : Playback → List ℕ → Pc → Ran
  unfolding sent_or wire send_audio
  give p pcm16 next = let f : Frame = send_audio transport sid pcm16 in sent_or (wire f) p f next

  -- The test of the `while` loop: one chunk goes out, or the next item is awaited.
  pump : Playback → List ℕ → Ran
  unfolding give at
  pump p buffered =
      if leb chunk_bytes (length buffered)
      then give p (take chunk_bytes buffered) (sending (drop chunk_bytes buffered))
      else at p (receiving buffered) []

  -- The end of the stream: `if buffered`
  flush : Playback → List ℕ → Ran
  unfolding give send_mark
  flush p [] = send_mark p []
  flush p (b ∷ bs) = give p (b ∷ bs) flushing

  stored_turn : Playback → Option Exn → Ran
  stored_turn p e = record { task = record p { pc = done e }; sent = []; stored = p.text ∷ [] }

  -- One section of the task, by where it stands and what it got. Other pairs do not occur: an
  -- `await` gives what it waits for.
  pub go : Playback → Pc → Wake → Ran
  unfolding pump flush finish send_mark stored_turn
  go p fresh w = at p (receiving []) []
  go p (receiving b) (item pcm) = pump p (b ++ pcm)
  go p (receiving b) finished = flush p b
  go p (receiving b) (threw e) = finish p (some e) []
  go p (sending b) returned = pump p b
  go p (sending b) (threw e) = finish p (some e) []
  go p flushing returned = send_mark p []
  go p flushing (threw e) = finish p (some e) []
  go p marking returned = finish p none []
  go p marking (threw e) = finish p (some e) []
  go p (persisting e) returned = stored_turn p e
  go p (persisting e) (threw e') = at p (done (some e')) []
  go p pc _ = at p pc []

  -- The CancelledError is caught in the `try`, and goes on through a task not yet run or in its
  -- `finally`: in each case the task ends and nothing is stored.
  pub abort : Playback → Ran
  abort p = record {
    task = record p { pc = done none; cancelling = false };
    sent = [];
    stored = [];
  }

  unfoldable pub resume : Playback → Wake → Ran
  unfolding go abort is_done
  resume p w = if is_done p then at p p.pc [] else if p.cancelling then abort p else go p p.pc w

  -- A task that runs again and again, with all that it sent and stored.
  unfoldable pub play : Playback → List Wake → Ran
  unfolding resume
  play p [] = record { task = p; sent = []; stored = [] }
  play p (w ∷ ws) =
      let first = resume p w in
      let rest = play first.task ws in
      record {
        task = rest.task;
        sent = first.sent ++ rest.sent;
        stored = first.stored ++ rest.stored;
      }
