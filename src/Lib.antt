-- ===== src/Lib.antt =====
-- A verification library for fastapi-claude-voice-agent, a voice agent: a caller's audio goes to a
-- speech recognizer, its transcripts to a language model with tools, and the replies to speech
-- synthesis and back to the caller.
--
-- The parts, and where they are modelled:
-- - Gate is for app/concurrency.py. `CallGate` and the part of `asyncio.Semaphore` that it uses
--   (Gate/Semaphore); Gate/System puts the tasks of app/routers/twilio.py and webrtc.py around it.
-- - Llm is for app/pipeline/llm_claude.py. `run_turn` with its message history; Llm/Agent has the
--   prompt-cache marks, Llm/Requests the requests of a call, Llm/Conversation the API's rule that each
--   tool use is answered in the next message,
--   Llm/Turns what a turn returns, with its rounds of tools in Llm/Rounds and sums over replies in
--   Llm/Sums.
-- - Orchestrator is for app/pipeline/orchestrator.py. Orchestrator/Playback is one `_run_playback` task,
--   Orchestrator/Call the tasks of one call: the consumer of transcripts, the playbacks and `stop`.
--   Orchestrator/Live is such a call with its own recognizer, Orchestrator/Storage its writes as calls
--   of the repository.
-- - Stt is for app/pipeline/stt_deepgram.py: `connect`, the reader, the queue and `close`; the test of
--   its generator `transcripts` stands in Orchestrator/Live, where the consumer runs it.
-- - Tts is for app/pipeline/tts_eleven.py: the request for an utterance and what becomes of its
--   answer; Orchestrator/Playback/Speech runs a playback over such an answer.
-- - Audio is for app/pipeline/audio.py and `on_audio_frame` of the orchestrator, with the part of
--   Python's `audioop` that they use in Audio/Audioop. `_send_audio` uses it in Orchestrator/Playback.
-- - Tools is for app/tools: Tools/Registry, the three handlers (Tools/CheckAvailability with
--   Tools/Calendar, Tools/Texts and Tools/IsoDate for dates, Tools/BookSlot with Tools/IsoDatetime,
--   Tools/SendConfirmation) and their registry in Tools/Default, over the world that tools act on
--   (Tools/World).
-- - Routers is for app/routers: Routers/Incoming has the webhook of twilio.py, Routers/Socket the loops
--   `_run_media_stream` and `_run_signaling` with what they call of an orchestrator, and
--   Routers/Connection the same loops among the tasks of the calls that they start.
-- - Security is for app/security.py, Settings for the fields, validators and helpers of
--   app/config.py.
-- - Persistence is for app/persistence/models.py and repositories.py, with the view of
--   app/routers/sessions.py; Persistence/Engine is for db.py, Persistence/TakenKey has a second call
--   under the key of another, and Orchestrator/Storage/Scope has
--   several writes in one `session_scope`.
-- - App is for app/main.py, app/middleware.py and, in App/Logging, app/logging.py: `lifespan`, /health,
--   and the answer to a request.
-- - Migrations is for migrations/versions (Migrations/Revision) and the metadata of models.py
--   (Migrations/Models), over a database with operations and laws of its own; Migrations/Env is for
--   migrations/env.py.
-- - Python is for JSON values, dicts, exceptions and, in Python/Base64, `base64`. Base: numbers,
--   texts and lists.
--
-- How it is modelled. The program runs on one asyncio loop, so code between two awaits is one
-- function, and an order of tasks is a list of events: `step` runs one section of one task, and
-- theorems over `run` hold for each such list. What comes from outside (answers of the model's API,
-- transcripts, speech, results of sends and of database writes, exceptions of any of them) is in the
-- events. `_processing` of the orchestrator and `_lock` of the gate are never contended, since one
-- task alone takes the first and no section that holds the second awaits. Loops over answers recur
-- on the list of answers: a turn whose answers run out is `waiting`.
-- Fuel is used for the days of `check_availability`: one for each day of the window, and one for the
-- test that ends the loop; for the sections of a playback over a speech, of which six more than the
-- speech has chunks and bytes are enough; for the characters of DATABASE_URL in Migrations/Env, one
-- of which each turn takes; and in `audioop`, whose inner loop writes at most `outrate` samples, and
-- whose `gcd` gets a smaller second number each time.
--
-- Not modelled: the clients of Anthropic, Deepgram, ElevenLabs and Twilio, structlog, the web
-- framework, the routing of requests, and alembic. `json.dumps`, `repr`, `str` on values that are no
-- texts, `urlparse`, the order that the database gives to rows of the same time,
-- `create_async_engine` and Twilio's RequestValidator and client are parameters; `json.loads` is in
-- the frames of a socket, as the value it gives. The database write of a playback is one wait, and
-- takes effect when it returns; that of a user's turn is two, for its commit, which takes effect
-- when it returns, and for the close of its session. Of the API's rules on messages only that on
-- tool uses is stated. A cancellation of a socket's own task, as at the server's shutdown, is left
-- out.
pub mod Base
pub mod App
pub mod Audio
pub mod Python
pub mod Gate
pub mod Settings
pub mod Security
pub mod Routers
pub mod Persistence
pub mod Stt
pub mod Tts
pub mod Tools
pub mod Llm
pub mod Migrations
pub mod Orchestrator
