-- ===== src/Stt/Tests.antt =====
-- Messages of the recognizer.
use fastapi_claude_voice_age.Base.{
  ◌≡◌, refl, String, Bool, true, false, ◌||◌, none, some, List, [], ◌∷◌, ◌++◌,
}
use fastapi_claude_voice_age.Python.{
  Json, bool, str, arr, obj, nil, cons, field, end, other, ok, raise, get_or, get,
}
use fastapi_claude_voice_age.Python.Objects.{strip}
use fastapi_claude_voice_age.Settings.{default_settings}
use fastapi_claude_voice_age.Stt.{
  Raw, bytes, connection_closed, text, Stream, reading, idle, parse, listen_url,
}
use fastapi_claude_voice_age.Stt.Transcripts.{reads, heard, has_end, brings, reads-heard}

-- A message of type Results with these alternatives.
abbrev pub message : Json → Bool → Json
message alternatives is_final = obj (
    field "type" (str "Results") (
      field "is_final" (bool is_final)
        (field "channel" (obj (field "alternatives" alternatives end)) end)))

abbrev pub transcript : String → Json
transcript t = arr (cons (obj (field "transcript" (str t) end)) nil)

final_parsed : parse (message (transcript " a slot ") true) ≡ ok (some ("a slot", true))
unfolding parse get_or get strip
final_parsed = refl

blank_parsed : parse (message (transcript "  ") true) ≡ ok none
unfolding parse get_or get strip
blank_parsed = refl

-- A message that names no alternative.
pub empty_alternatives : parse (message (arr nil) true) ≡ raise (other "list index out of range")
unfolding parse get_or get
empty_alternatives = refl

url :
    listen_url (λ n. "300") default_settings
    ≡ "wss://api.deepgram.com/v1/listen?model=nova-3&language=multi&encoding=linear16&sample_rate=16000&channels=1&interim_results=true&smart_format=true&endpointing=300"
unfolding listen_url
url = refl

abbrev listening_stream : Stream
listening_stream = record {
  connected = true;
  reader = reading;
  cancelling = false;
  queue = [];
  closed = false;
  closer = idle;
}

abbrev raws : List Raw
raws =
    text (message (transcript "a") false)
    ∷ bytes
    ∷ text (message (transcript "a slot") true)
    ∷ connection_closed
    ∷ []

raws-heard : heard raws ≡ ("a", false) ∷ ("a slot", true) ∷ []
unfolding heard brings parse get_or get strip
raws-heard = refl

reads-heard_example :
    ((reads raws listening_stream).queue ≡ [] ++ heard raws)
    × ((reads raws listening_stream).closed ≡ (has_end raws || false))
reads-heard_example = reads-heard raws listening_stream refl refl
