-- ===== src/Orchestrator/Playback/Speech.antt =====
-- A playback with its own speech synthesis: `_run_playback` of app/pipeline/orchestrator.py over
-- `synthesize_stream` of app/pipeline/tts_eleven.py, while nothing cancels it and all its sends and
-- its database write go through.
pub mod Chunks
pub mod Ends
pub mod Answered
pub mod Payloads
pub mod Reached
mod Tests
use fastapi_claude_voice_age.Base.{ℕ, zero, suc, String, Option, none, some, List, [], ◌∷◌, ◌++◌}
use fastapi_claude_voice_age.Python.{Exn}
use fastapi_claude_voice_age.Orchestrator.Playback.{
  Transport, Wake, item, finished, returned, threw, Pc, receiving, Playback, Ran, resume,
}

-- What the next `await` of the task gives, and what the synthesis has left: its next chunk, its end
-- or its exception in the `async for`, and a return elsewhere.
unfoldable pub next : Pc → List (List ℕ) → Option Exn → Wake × List (List ℕ)
next (receiving b) (c ∷ cs) e = (item c, cs)
next (receiving b) [] none = (finished, [])
next (receiving b) [] (some e) = (threw e, [])
next pc cs e = (returned, cs)

module _ (transport : Transport) (sid : String) where
  -- Up to `n` sections of the task.
  unfoldable pub perform : ℕ → Playback → List (List ℕ) → Option Exn → Ran
  unfolding next
  perform zero p cs e = record { task = p; sent = []; stored = [] }
  perform (suc n) p cs e =
      let (w, rest) = next p.pc cs e in
      let first = resume transport sid p w in
      let more = perform n first.task rest e in
      record {
        task = more.task;
        sent = first.sent ++ more.sent;
        stored = first.stored ++ more.stored;
      }
