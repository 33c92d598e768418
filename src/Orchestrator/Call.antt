-- ===== src/Orchestrator/Call.antt =====
-- The tasks of one call: the consumer of transcripts, the playbacks that it starts, and `stop`. Each
-- runs from one `await` to the next without a break, and an `Event` says which one runs and what its
-- `await` gave. `_processing` is taken by the consumer alone, so it is always free.
pub mod Invariant
pub mod Turn
pub mod BargeIn
pub mod Failure
pub mod Log
pub mod Others
use fastapi_claude_voice_age.Base.{
  ℕ, ◌≡◌, Bool, true, false, ◌&&◌, not, String, Option, none, some, List, [], ◌∷◌, ◌++◌, map, leb,
  length, if◌then◌else◌,
}
use fastapi_claude_voice_age.Base.Text.{codes}
use fastapi_claude_voice_age.Python.{Exn, Result, ok, raise, ◌>>=◌, ◌>>◌, is_blank}
use fastapi_claude_voice_age.Llm.{TurnResult, ToolCall}
use fastapi_claude_voice_age.Orchestrator.Playback.{
  Transport, Frame, Wake, Playback, Ran, is_done, cancel, start_playback, resume,
}
use mathlib.Core.Option

abbrev pub greeting : String
greeting = "Hi! I can help you book an appointment. How can I help today?"

abbrev pub barge_in_min_chars : ℕ
barge_in_min_chars = 3

-- A row that this call wrote, in the order of the writes.
pub data Row : Type 0 where
  session : (call_sid from_number : String) → Row
  turn : (role text : String) (latency_ms : Option ℕ) → Row
  tool_call : ToolCall → Row
  ended : Row

-- Where `_consume_transcripts` waits: for a transcript; for the user's turn to be stored; for the
-- scope of that write to close; for the model; for the rows of its reply to be stored, with the
-- measured latency among them. `gone` is the end of the task, with its exception.
pub data Consumer : Type 0 where
  listening : Consumer
  storing_user : String → Consumer
  closing_user : String → Consumer
  thinking : Consumer
  storing_reply : TurnResult → List Row → Consumer
  gone : Option Exn → Consumer

-- What the consumer's `await` gave: `answered` comes with the `latency_ms` that
-- `_handle_user_turn` reads off its own clock; that of the `TurnResult` is not used.
pub data Heard : Type 0 where
  ready stream_over : Heard
  answered : TurnResult → ℕ → Heard
  failed : Exn → Heard

-- `current` is `_speak_task`, `former` are the playbacks that it was before. `queue` holds the
-- transcripts not yet taken, `user_texts` what `add_user_text` was given, `rows` what was stored and
-- `frames` what went out on the socket. `stopped` is `_stopped`, `closed` the end of `stop`.
pub record Call : Type 0 where
  pub transport : Transport
  pub stream_sid : String
  pub queue : List (String × Bool)
  pub consumer : Consumer
  pub consumer_cancelled : Bool
  pub current : Option Playback
  pub former : List Playback
  pub user_texts : List String
  pub rows : List Row
  pub frames : List Frame
  pub stopped : Bool
  pub closed : Bool

pub data Event : Type 0 where
  transcribed : String → Bool → Event
  consumer_wakes : Heard → Event
  playback_wakes : Wake → Event
  former_wakes : ℕ → Wake → Event
  stop_called stop_goes_on : Event

-- `_is_speaking`
unfoldable pub is_speaking : Call → Bool
unfolding is_done
is_speaking c = elim c.current [ none ↦ false | some p ↦ not (is_done p) ]

-- `_cancel_speak`; `cancel` leaves a task that is done alone.
unfoldable pub cancel_speak : Call → Call
cancel_speak c = record c { current = Option.map cancel c.current }

abbrev pub to_list : Option Playback → List Playback
to_list none = []
to_list (some p) = p ∷ []

-- `_speak`
unfoldable pub speak : String → Bool → Call → Call
speak text persist c = record c {
  former = map cancel (to_list c.current) ++ c.former;
  current = some (start_playback text persist);
}

-- `start`, with what `connect` and `create` gave.
unfoldable pub start :
    Transport → String → String → String → Result (Unit {0}) → Result (Unit {0}) → Result Call
unfolding speak
start transport stream_sid call_sid from_number connected created = do
  connected
  created
  ok (
      speak greeting true (record {
        transport = transport;
        stream_sid = stream_sid;
        queue = [];
        consumer = listening;
        consumer_cancelled = false;
        current = none;
        former = [];
        user_texts = [];
        rows = session call_sid from_number ∷ [];
        frames = [];
        stopped = false;
        closed = false;
      }))

-- The body of the loop in `_consume_transcripts`, up to its first `await`.
unfoldable pub on_transcript : String → Bool → Call → Call
unfolding is_speaking cancel_speak
on_transcript text true c = record c { consumer = storing_user text }
on_transcript text false c =
    if is_speaking c && leb barge_in_min_chars (length (codes text)) then cancel_speak c else c

-- The next transcript of the queue, if there is one, with what the body does for it.
unfoldable pub take_transcript : Call → Call
unfolding on_transcript
take_transcript c = elim c.queue [
  | [] ↦ c
  | (text, is_final) ∷ q ↦ on_transcript text is_final (record c { queue = q })
]

-- The rows of one reply of the model, with the latency that was measured around `run_turn`.
abbrev pub reply_rows : TurnResult → ℕ → List Row
reply_rows t latency_ms = turn "assistant" t.text (some latency_ms) ∷ map tool_call t.tool_calls

-- The end of `_handle_user_turn`
unfoldable pub reply : TurnResult → Call → Call
unfolding speak is_blank
reply t c =
    let c' = record c { consumer = listening } in
    if is_blank t.text then c' else speak t.text false c'

-- One section of the consumer, by where it waits and what it got; other pairs do not occur.
unfoldable pub consume : Consumer → Heard → Call → Call
unfolding take_transcript reply
consume listening ready c = take_transcript c
consume listening stream_over c = record c { consumer = gone none }
consume (storing_user text) ready c = record c {
  rows = c.rows ++ (turn "user" text none ∷ []);
  consumer = closing_user text;
}
consume (closing_user text) ready c = record c {
  user_texts = c.user_texts ++ (text ∷ []);
  consumer = thinking;
}
consume thinking (answered t latency_ms) c = record c {
  consumer = storing_reply t (reply_rows t latency_ms);
}
consume (storing_reply t (row ∷ rest)) ready c = record c {
  rows = c.rows ++ (row ∷ []);
  consumer = storing_reply t rest;
}
consume (storing_reply t []) ready c = reply t c
consume (gone e) _ c = c
consume _ (failed e) c = record c { consumer = gone (some e) }
consume _ _ c = c

-- A playback of the call has run: its frames are sent and its text is stored.
abbrev pub emitted : Ran → Call → Call
emitted r c = record c {
  frames = c.frames ++ r.sent;
  rows = c.rows ++ map (λ text. turn "assistant" text none) r.stored;
}

unfoldable pub wake_current : Option Playback → Wake → Call → Call
wake_current none w c = c
wake_current (some p) w c =
    let r = resume c.transport c.stream_sid p w in emitted r (record c { current = some r.task })

-- The n-th of the former playbacks runs; those before it in the list are `passed`.
unfoldable pub wake_former : List Playback → List Playback → ℕ → Wake → Call → Call
wake_former passed [] n w c = c
wake_former passed (p ∷ ps) ℕ.zero w c =
    let r = resume c.transport c.stream_sid p w in
    emitted r (record c { former = passed ++ (r.task ∷ ps) })
wake_former passed (p ∷ ps) (ℕ.suc n) w c = wake_former (passed ++ (p ∷ [])) ps n w c

-- `stop`, up to the first task that it awaits.
unfoldable pub stop : Call → Call
unfolding cancel_speak
stop c =
    if c.stopped then c else record (cancel_speak c) { stopped = true; consumer_cancelled = true }

abbrev pub is_gone : Consumer → Bool
is_gone (gone e) = true
is_gone _ = false

-- `stop`, once the tasks that it awaits are done: `mark_ended`.
unfoldable pub finish_stop : Call → Call
unfolding is_speaking
finish_stop c =
    if c.stopped && not c.closed && not (is_speaking c) && is_gone c.consumer
    then record c { closed = true; rows = c.rows ++ (ended ∷ []) }
    else c

unfoldable pub step : Call → Event → Call
unfolding consume wake_current wake_former stop finish_stop
step c (transcribed text is_final) = record c { queue = c.queue ++ ((text, is_final) ∷ []) }
step c (consumer_wakes h) =
    if c.consumer_cancelled && not (is_gone c.consumer)
    then record c { consumer = gone none }
    else consume c.consumer h c
step c (playback_wakes w) = wake_current c.current w c
step c (former_wakes n w) = wake_former [] c.former n w c
step c stop_called = stop c
step c stop_goes_on = finish_stop c

unfoldable pub run : Call → List Event → Call
run c [] = c
run c (e ∷ es) = run (step c e) es
