-- ===== src/Stt.antt =====
-- app/pipeline/stt_deepgram.py: `DeepgramStream`, with its reader task, its queue of transcripts and
-- `close`. What the socket gives and what its calls raise are arguments. `json.dumps` is not needed:
-- what `close` sends is not looked at.
pub mod Transcripts
mod Tests
use fastapi_claude_voice_age.Base.{
  ℕ, ◌<>◌, String, Bool, true, false, not, ◌&&◌, Option, none, some, List, [], ◌∷◌, ◌++◌, ◌==◌,
  if◌then◌else◌,
}
use fastapi_claude_voice_age.Python.{
  Json, null, bool, str, arr, obj, nil, cons, Fields, end, Exn, value_error, runtime_error, Result,
  ok, raise, ◌>>=◌, get_or,
}
use fastapi_claude_voice_age.Python.Objects.{truthy, dict_of, first_item, strip}
use fastapi_claude_voice_age.Settings.{Settings}

-- `url` of `connect`; `number_text` is `str` on a number.
module _ (number_text : ℕ → String) where
  unfoldable pub listen_url : Settings → String
  listen_url settings =
      "wss://api.deepgram.com/v1/listen?model="
      <> (settings.deepgram_model
          <> ("&language="
              <> (settings.deepgram_language
                  <> ("&encoding=linear16&sample_rate=16000&channels=1&interim_results=true&smart_format=true"
                      <> ("&endpointing=" <> number_text settings.deepgram_endpointing_ms)))))

-- What `async for raw in ws` gives: a frame of bytes, a text that is no JSON, a text with its value,
-- its regular end, ConnectionClosed, or another exception.
pub data Raw : Type 0 where
  bytes bad_json over connection_closed : Raw
  text : Json → Raw
  broke : Exn → Raw

-- `_recv_task`: absent; not yet run; in the `async for`; at its end, with its exception.
pub data Reader : Type 0 where
  absent fresh reading : Reader
  ended : Option Exn → Reader

-- Where `close` waits: not called; in the send of CloseStream; in `ws.close()`; for the reader; at
-- its end.
pub data Closer : Type 0 where
  idle sending closing joining finished : Closer

-- `connected` says that `_ws` is not None, `cancelling` that a cancellation of the reader was asked
-- for, `closed` is `_closed`.
pub record Stream : Type 0 where
  pub connected : Bool
  pub reader : Reader
  pub cancelling : Bool
  pub queue : List (String × Bool)
  pub closed : Bool
  pub closer : Closer

unfoldable pub init : Stream
init = record {
  connected = false;
  reader = absent;
  cancelling = false;
  queue = [];
  closed = false;
  closer = idle;
}

-- `connect`, with what the opening of the socket gave, a timeout included.
unfoldable pub connect : Result (Unit {0}) → Stream → Result Stream
connect (ok u) s = ok (record s { connected = true; reader = fresh })
connect (raise e) s = raise e

-- `send_pcm`, with what the send gave
unfoldable pub send_pcm : Result (Unit {0}) → Stream → Result (Unit {0})
send_pcm sent s = if s.connected then sent else raise (runtime_error "DeepgramStream not connected")

-- The text of `alt`, without white space around it.
alternative_text : Json → Result String
unfolding dict_of get_or truthy strip
alternative_text alt = do
  a ← dict_of alt
  strip (let v : Json = get_or "transcript" a null in if truthy v then v else str "")

-- `msg.get("channel", {}).get("alternatives", [{}])[0]`
first_alternative : Fields → Result Json
unfolding dict_of get_or first_item
first_alternative msg = do
  channel ← dict_of (get_or "channel" msg (obj end))
  first_item (get_or "alternatives" channel (arr (cons (obj end) nil)))

-- The transcript that a message of the type Results carries, if its text is not empty.
results : Fields → Result (Option (String × Bool))
unfolding first_alternative alternative_text truthy get_or
results msg = do
  alt ← first_alternative msg
  transcript ← alternative_text alt
  ok (if transcript == "" then none else some (transcript, truthy (get_or "is_final" msg null)))

is_results : Json → Bool
is_results (str s) = s == "Results"
is_results _ = false

-- The body of the loop in `_reader` for one JSON value.
unfoldable pub parse : Json → Result (Option (String × Bool))
unfolding dict_of get_or is_results results
parse v = do msg ← dict_of v; if is_results (get_or "type" msg null) then results msg else ok none

-- The end of `_reader` inside its `try`, and the `finally` clause.
unfoldable pub end_reader : Option Exn → Stream → Stream
end_reader e s = record s { reader = ended e; closed = true }

abbrev pub to_list : Option (String × Bool) → List (String × Bool)
to_list none = []
to_list (some t) = t ∷ []

-- The queue has no bound, so that `put` does not wait.
pub on_parsed : Result (Option (String × Bool)) → Stream → Stream
unfolding end_reader
on_parsed (raise e) s = end_reader (some e) s
on_parsed (ok t) s = record s { queue = s.queue ++ to_list t }

pub on_raw : Raw → Stream → Stream
unfolding end_reader on_parsed parse
on_raw bytes s = s
on_raw bad_json s = end_reader (some (value_error "Expecting value")) s
on_raw over s = end_reader none s
on_raw connection_closed s = end_reader none s
on_raw (text v) s = on_parsed (parse v) s
on_raw (broke e) s = end_reader (some e) s

-- The first section of `_reader`: without a socket it returns before its `try`.
enter_reader : Stream → Stream
enter_reader s =
    if s.connected then record s { reader = reading } else record s { reader = ended none }

-- One section of the reader. A cancelled task that has not yet run ends without its `finally`.
pub read : Reader → Raw → Stream → Stream
unfolding enter_reader end_reader on_raw
read fresh raw s = if s.cancelling then record s { reader = ended none } else enter_reader s
read reading raw s = if s.cancelling then end_reader none s else on_raw raw s
read _ raw s = s

unfoldable pub reader_step : Raw → Stream → Stream
unfolding read
reader_step raw s = read s.reader raw s

-- The end of `close`: the reader is cancelled, and awaited if it is not at its end.
cancel_reader : Reader → Stream → Stream
cancel_reader absent s = record s { closer = finished }
cancel_reader (ended e) s = record s { closer = finished }
cancel_reader _ s = record s { cancelling = true; closer = joining }

-- `close`, up to its first wait
unfoldable pub close : Stream → Stream
unfolding cancel_reader
close s =
    let s' = record s { closed = true } in
    if s.connected then record s' { closer = sending } else cancel_reader s.reader s'

has_ended : Reader → Bool
has_ended (ended e) = true
has_ended _ = false

-- A section of `close` after a wait, which may have raised: the exception is logged.
resume_close : Closer → Result (Unit {0}) → Stream → Stream
unfolding cancel_reader has_ended
resume_close sending outcome s = record s { closer = closing }
resume_close closing outcome s = cancel_reader s.reader (record s { connected = false })
resume_close joining outcome s = if has_ended s.reader then record s { closer = finished } else s
resume_close _ outcome s = s

unfoldable pub close_step : Result (Unit {0}) → Stream → Stream
unfolding resume_close
close_step outcome s = resume_close s.closer outcome s
