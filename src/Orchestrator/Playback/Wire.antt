-- ===== src/Orchestrator/Playback/Wire.antt =====
-- Which audio `_send_audio` can put into a payload: on Twilio only whole samples.
use fastapi_claude_voice_age.Base.{
  ◌≡◌, refl, ℕ, ◌%◌, Bool, true, false, eqb, eqb→eq, String, List, length, arith,
}
use fastapi_claude_voice_age.Python.{Json, ok, raise}
use fastapi_claude_voice_age.Audio.Outgoing.{odd_fragment, payload_sized, refused_payload}
use fastapi_claude_voice_age.Orchestrator.Playback.{
  Transport, twilio, webrtc, wire, send_audio, media_message,
}

abbrev pub refuses : Transport → List ℕ → Bool
refuses twilio pcm = eqb (length pcm % 2) 1
refuses webrtc pcm = false

pub wire-refused :
    (t : Transport) (sid : String) (pcm : List ℕ)
    → refuses t pcm ≡ true
    → wire (send_audio t sid pcm) ≡ raise odd_fragment
unfolding wire send_audio
wire-refused twilio sid pcm h = rw (refused_payload pcm (eqb→eq (length pcm % 2) 1 h)) refl
wire-refused webrtc sid pcm h = ground (arith, h)

pub wire-taken :
    (t : Transport) (sid : String) (pcm : List ℕ)
    → refuses t pcm ≡ false
    → (payload : Json) × (wire (send_audio t sid pcm) ≡ ok payload)
unfolding wire send_audio
wire-taken twilio sid pcm h =
    let (payload, us, e, d, l) = payload_sized pcm (ground (arith, h)) in
    (media_message sid payload, rw e refl)
wire-taken webrtc sid pcm h = (_, refl)
