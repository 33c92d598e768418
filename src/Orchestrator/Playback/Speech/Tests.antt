-- ===== src/Orchestrator/Playback/Speech/Tests.antt =====
-- A greeting whose synthesis breaks off after two chunks.
use fastapi_claude_voice_age.Base.{
  ◌≡◌, refl, ◌≤◌, ◌<◌, ◌+◌, ◌/◌, All, List, length, take, none, ℕ, String, true, some, [], ◌∷◌,
  arith, if◌then◌else◌,
}
use fastapi_claude_voice_age.Python.{ok, other}
use fastapi_claude_voice_age.Audio.Outgoing.{odd_fragment}
use fastapi_claude_voice_age.Tts.{Answer, response, synthesize_stream}
use fastapi_claude_voice_age.Orchestrator.Playback.{twilio, webrtc, done, start_playback}
use fastapi_claude_voice_age.Orchestrator.Playback.Frames.{bytes_of}
use fastapi_claude_voice_age.Orchestrator.Playback.Speech.{perform}
use fastapi_claude_voice_age.Orchestrator.Playback.Speech.Answered.{
  body, exception, heard, perform-heard,
}
use fastapi_claude_voice_age.Orchestrator.Playback.Speech.Payloads.{sounds}
use fastapi_claude_voice_age.Orchestrator.Playback.Speech.Reached.{frames, sounds-perform}

abbrev as_text : ℕ → String
as_text n = "200"

abbrev broken : Answer
broken = response 200 ((1 ∷ 2 ∷ []) ∷ [] ∷ (3 ∷ []) ∷ []) (some (other "ReadTimeout"))

enough : 11 ≤ 12
enough = omega arith

perform-heard_example :
    let s = synthesize_stream as_text broken in
    let r = perform twilio "MZ1" 12 (start_playback "hi" true) s.pcm s.failure in
    (r.task.pc ≡ done (exception twilio as_text broken))
    × (bytes_of r.sent ≡ heard twilio as_text broken)
    × (r.stored ≡ (if true then "hi" ∷ [] else []))
unfolding synthesize_stream
perform-heard_example = perform-heard twilio "MZ1" as_text broken "hi" true 12 enough

-- A body of five bytes.
abbrev whole_body : Answer
whole_body = response 200 ((1 ∷ 2 ∷ []) ∷ [] ∷ (3 ∷ 4 ∷ 5 ∷ []) ∷ []) none

enough_again : 13 ≤ 13
enough_again = omega arith

bytes : All (λ x. x < 256) (body whole_body)
bytes = (omega arith, (omega arith, (omega arith, (omega arith, (omega arith, tt)))))

sounds-perform_example :
    (sounds webrtc (frames "MZ1" as_text whole_body "hi" true 13 webrtc)
      ≡ ok (heard webrtc as_text whole_body))
    × ((us : List ℕ) × (sounds twilio (frames "MZ1" as_text whole_body "hi" true 13 twilio) ≡ ok us)
        × (length us ≡ (length (heard twilio as_text whole_body) + 2) / 4))
unfolding synthesize_stream
sounds-perform_example = sounds-perform "MZ1" as_text whole_body "hi" true 13 enough_again bytes

-- The browser hears all five, Twilio none: they are no whole samples.
heard_of_five :
    (heard webrtc as_text whole_body ≡ 1 ∷ 2 ∷ 3 ∷ 4 ∷ 5 ∷ [])
    × (heard twilio as_text whole_body ≡ [])
    × (exception twilio as_text whole_body ≡ some odd_fragment)
unfolding heard synthesize_stream take
heard_of_five = (refl, refl, refl)
