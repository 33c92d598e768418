-- ===== src/Orchestrator/Storage/Written.antt =====
-- The rows of a call while it runs: its session first, then writes that the tables take.
use fastapi_claude_voice_age.Base.{
  ◌≡◌, refl, ap, sym, subst, ◌∙◌, arith, ℕ, zero, suc, String, true, false, not, ◌&&◌,
  if◌then◌else◌, Option, none, some, List, [], ◌∷◌, ◌++◌, map, All, All-append,
}
use mathlib.Core.List.{append-nil}
use fastapi_claude_voice_age.Python.{Result, ok, raise}
use fastapi_claude_voice_age.Llm.{TurnResult, ToolCall}
use fastapi_claude_voice_age.Orchestrator.Playback.{Transport, Wake, Playback, resume}
use fastapi_claude_voice_age.Orchestrator.Call.{
  Row, session, turn, tool_call, ended, Consumer, listening, storing_user, closing_user, thinking,
  storing_reply, gone, Heard, ready, stream_over, answered, failed, Call, Event, transcribed,
  consumer_wakes, playback_wakes, former_wakes, stop_called, stop_goes_on, start, speak,
  take_transcript, on_transcript, cancel_speak, reply_rows, reply, consume, wake_current,
  wake_former, stop, finish_stop, is_gone, is_speaking, step, run,
}
use fastapi_claude_voice_age.Orchestrator.Storage.Rows.{HasNames, EventFits, IsStorable}

-- The rows of a call are its session and then writes that the tables take; so are those that the
-- consumer has yet to make.
abbrev Pending : Consumer → Type 0
Pending (storing_reply t rows) = All IsStorable rows
Pending _ = Unit

pub record IsWritten (sid from_number : String) (c : Call) : Type 0 where
  pub rest : List Row
  pub rows_are : c.rows ≡ session sid from_number ∷ rest
  pub storable : All IsStorable rest
  pub pending : Pending c.consumer

abbrev ok_or : Call → Result Call → Call
ok_or c (ok a) = a
ok_or c (raise e) = c

module _ (sid from_number : String) where
  pub start-IsWritten :
      (transport : Transport) (stream_sid : String) (connected created : Result (Unit {0}))
      (c : Call)
      → start transport stream_sid sid from_number connected created ≡ ok c
      → IsWritten sid from_number c
  unfolding start speak
  start-IsWritten transport stream_sid (ok u) (ok v) c h =
      subst (IsWritten sid from_number) (ap (ok_or c) h)
        (record { rest = []; rows_are = refl; storable = tt; pending = tt })
  start-IsWritten transport stream_sid (ok u) (raise e) c h = cc
  start-IsWritten transport stream_sid (raise e) created c h = cc

  -- More writes at the end.
  written :
      (c : Call) (more : List Row) (c' : Call)
      → IsWritten sid from_number c
      → c'.rows ≡ c.rows ++ more
      → All IsStorable more
      → Pending c'.consumer
      → IsWritten sid from_number c'
  written c more c' v e h p = record {
    rest = v.rest ++ more;
    rows_are = e ∙ ap (λ x. x ++ more) v.rows_are;
    storable = All-append IsStorable v.rest more v.storable h;
    pending = p;
  }

  tool_calls-IsStorable : (ts : List ToolCall) → HasNames ts → All IsStorable (map tool_call ts)
  tool_calls-IsStorable [] h = tt
  tool_calls-IsStorable (t ∷ ts) h = (h.0, tool_calls-IsStorable ts h.1)

  assistant-IsStorable :
      (texts : List String) → All IsStorable (map (λ text. turn "assistant" text none) texts)
  assistant-IsStorable [] = tt
  assistant-IsStorable (t ∷ ts) = (refl, assistant-IsStorable ts)

  take-IsWritten :
      (c : Call)
      → IsWritten sid from_number c
      → c.consumer ≡ listening
      → IsWritten sid from_number (take_transcript c)
  unfolding take_transcript on_transcript cancel_speak
  take-IsWritten c v e =
      written c [] (take_transcript c) v (ground (arith, append-nil c.rows)) tt (ground (arith, e))

  reply-IsWritten :
      (t : TurnResult) (c : Call)
      → IsWritten sid from_number c
      → IsWritten sid from_number (reply t c)
  unfolding reply speak
  reply-IsWritten t c v =
      written c [] (reply t c) v (ground (arith, append-nil c.rows)) tt (ground arith)

  -- A section of the consumer that writes nothing and waits for no write.
  silent :
      (c : Call) (k : Consumer)
      → IsWritten sid from_number c
      → Pending k
      → IsWritten sid from_number (record c { consumer = k })
  silent c k v p = written c [] (record c { consumer = k }) v (sym (append-nil c.rows)) tt p

  consume-IsWritten :
      (k : Consumer) (h : Heard) (c : Call)
      → c.consumer ≡ k
      → EventFits (consumer_wakes h)
      → IsWritten sid from_number c
      → IsWritten sid from_number (consume k h c)
  unfolding consume
  consume-IsWritten listening ready c e f v = take-IsWritten c v e
  consume-IsWritten listening stream_over c e f v = silent c (gone none) v tt
  consume-IsWritten listening (answered t took) c e f v = v
  consume-IsWritten listening (failed x) c e f v = silent c (gone (some x)) v tt
  consume-IsWritten (storing_user text) ready c e f v =
      written c (turn "user" text none ∷ []) (consume (storing_user text) ready c) v refl (refl, tt)
        tt
  consume-IsWritten (storing_user text) stream_over c e f v = v
  consume-IsWritten (storing_user text) (answered t took) c e f v = v
  consume-IsWritten (storing_user text) (failed x) c e f v = silent c (gone (some x)) v tt
  consume-IsWritten (closing_user text) ready c e f v =
      written c [] (consume (closing_user text) ready c) v (sym (append-nil c.rows)) tt tt
  consume-IsWritten (closing_user text) stream_over c e f v = v
  consume-IsWritten (closing_user text) (answered t took) c e f v = v
  consume-IsWritten (closing_user text) (failed x) c e f v = silent c (gone (some x)) v tt
  consume-IsWritten thinking (answered t took) c e f v =
      silent c (storing_reply t (reply_rows t took)) v (refl, tool_calls-IsStorable t.tool_calls f)
  consume-IsWritten thinking ready c e f v = v
  consume-IsWritten thinking stream_over c e f v = v
  consume-IsWritten thinking (failed x) c e f v = silent c (gone (some x)) v tt
  consume-IsWritten (storing_reply t []) ready c e f v = reply-IsWritten t c v
  consume-IsWritten (storing_reply t (row ∷ rows)) ready c e f v =
      let p : All IsStorable (row ∷ rows) = subst Pending e v.pending in
      written c (row ∷ []) (consume (storing_reply t (row ∷ rows)) ready c) v refl (p.0, tt) p.1
  consume-IsWritten (storing_reply t []) stream_over c e f v = v
  consume-IsWritten (storing_reply t []) (answered r took) c e f v = v
  consume-IsWritten (storing_reply t []) (failed x) c e f v = silent c (gone (some x)) v tt
  consume-IsWritten (storing_reply t (row ∷ rows)) stream_over c e f v = v
  consume-IsWritten (storing_reply t (row ∷ rows)) (answered r took) c e f v = v
  consume-IsWritten (storing_reply t (row ∷ rows)) (failed x) c e f v =
      silent c (gone (some x)) v tt
  consume-IsWritten (gone x) ready c e f v = v
  consume-IsWritten (gone x) stream_over c e f v = v
  consume-IsWritten (gone x) (answered r took) c e f v = v
  consume-IsWritten (gone x) (failed y) c e f v = v

  wake_former-IsWritten :
      (passed ps : List Playback) (n : ℕ) (w : Wake) (c : Call)
      → IsWritten sid from_number c
      → IsWritten sid from_number (wake_former passed ps n w c)
  unfolding wake_former
  wake_former-IsWritten passed [] n w c v = v
  wake_former-IsWritten passed (p ∷ ps) zero w c v =
      let r = resume c.transport c.stream_sid p w in
      written c (map (λ text. turn "assistant" text none) r.stored)
        (wake_former passed (p ∷ ps) zero w c) v refl (assistant-IsStorable r.stored) v.pending
  wake_former-IsWritten passed (p ∷ ps) (suc n) w c v =
      wake_former-IsWritten (passed ++ (p ∷ [])) ps n w c v

  wake_current-IsWritten :
      (p : Option Playback) (w : Wake) (c : Call)
      → IsWritten sid from_number c
      → IsWritten sid from_number (wake_current p w c)
  unfolding wake_current
  wake_current-IsWritten none w c v = v
  wake_current-IsWritten (some p) w c v =
      let r = resume c.transport c.stream_sid p w in
      written c (map (λ text. turn "assistant" text none) r.stored) (wake_current (some p) w c) v
        refl (assistant-IsStorable r.stored) v.pending

  section-IsWritten :
      (c : Call) (h : Heard)
      → EventFits (consumer_wakes h)
      → IsWritten sid from_number c
      → IsWritten sid from_number (step c (consumer_wakes h))
  unfolding step
  section-IsWritten c h f v =
      elim (c.consumer_cancelled && not (is_gone c.consumer))
        as (λ b.
          IsWritten sid from_number
            (if b then record c { consumer = gone none } else consume c.consumer h c)) [
              | true ↦ silent c (gone none) v tt
              | false ↦ consume-IsWritten c.consumer h c refl f v
            ]

  step-IsWritten :
      (c : Call) (e : Event)
      → EventFits e
      → IsWritten sid from_number c
      → IsWritten sid from_number (step c e)
  unfolding step stop cancel_speak finish_stop
  step-IsWritten c (transcribed text is_final) f v =
      written c [] (step c (transcribed text is_final)) v (sym (append-nil c.rows)) tt v.pending
  step-IsWritten c (consumer_wakes h) f v = section-IsWritten c h f v
  step-IsWritten c (playback_wakes w) f v = wake_current-IsWritten c.current w c v
  step-IsWritten c (former_wakes n w) f v = wake_former-IsWritten [] c.former n w c v
  step-IsWritten c stop_called f v =
      written c [] (stop c) v (ground (arith, append-nil c.rows)) tt (ground (arith, v.pending))
  step-IsWritten c stop_goes_on f v =
      elim (c.stopped && not c.closed && not (is_speaking c) && is_gone c.consumer)
        as (λ b.
          IsWritten sid from_number
            (if b then record c { closed = true; rows = c.rows ++ (ended ∷ []) } else c)) [
              | true ↦
                  written c (ended ∷ []) (record c { closed = true; rows = c.rows ++ (ended ∷ []) })
                    v refl (tt, tt) v.pending
              | false ↦ v
            ]

  pub run-IsWritten :
      (c : Call) (es : List Event)
      → All EventFits es
      → IsWritten sid from_number c
      → IsWritten sid from_number (run c es)
  unfolding run
  run-IsWritten c [] f v = v
  run-IsWritten c (e ∷ es) f v = run-IsWritten (step c e) es f.1 (step-IsWritten c e f.0 v)
