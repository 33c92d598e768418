-- ===== src/Orchestrator/Call/Turn.antt =====
-- One turn of the caller, from the transcript to the reply.
use fastapi_claude_voice_age.Base.{
  ℕ, map, some, ◌≡◌, refl, sym, ap, ◌∙◌, Bool, true, false, String, none, List, [], ◌∷◌, ◌++◌,
  arith, if◌then◌else◌,
}
use mathlib.Core.List.{append-nil, append_assoc}
use fastapi_claude_voice_age.Python.{is_blank}
use fastapi_claude_voice_age.Llm.{TurnResult}
use fastapi_claude_voice_age.Orchestrator.Call.{
  Row, turn, tool_call, Consumer, listening, storing_user, closing_user, thinking, storing_reply,
  Heard, consume, ready, answered, Call, Event, consumer_wakes, speak, take_transcript, reply_rows,
  reply, step, run,
}

-- The consumer's events while it stores the reply of the model: one for each row, and the last.
abbrev pub storing_events : List Row → List Event
storing_events [] = consumer_wakes ready ∷ []
storing_events (row ∷ rows) = consumer_wakes ready ∷ storing_events rows

-- All its events in one turn that meets no error.
abbrev pub turn_events : TurnResult → ℕ → List Event
turn_events t took =
    consumer_wakes ready
    ∷ consumer_wakes ready
    ∷ consumer_wakes ready
    ∷ consumer_wakes (answered t took)
    ∷ storing_events (reply_rows t took)

-- A section of a consumer that nobody has cancelled.
pub step-consume :
    (c : Call) (k : Consumer) (heard : Heard)
    → c.consumer_cancelled ≡ false
    → c.consumer ≡ k
    → step c (consumer_wakes heard) ≡ consume k heard c
unfolding step
step-consume c k heard live here = rw (← here) (ground arith)

pub run-storing_events :
    (t : TurnResult) (rows : List Row) (c : Call) (more : List Event)
    → c.consumer_cancelled ≡ false
    → c.consumer ≡ storing_reply t rows
    → run c (storing_events rows ++ more) ≡ run (reply t (record c { rows = c.rows ++ rows })) more
unfolding run reply consume
run-storing_events t [] c more live here =
    rw append-nil (ap (λ x. run x more) (step-consume c (storing_reply t []) ready live here))
run-storing_events t (row ∷ rows) c more live here =
    let c' = record c { rows = c.rows ++ (row ∷ []); consumer = storing_reply t rows } in
    ap (λ x. run x (storing_events rows ++ more))
      (step-consume c (storing_reply t (row ∷ rows)) ready live here)
    ∙ (run-storing_events t rows c' more live refl
        ∙ ap (λ x. run (reply t (record c { rows = x })) more)
            (append_assoc c.rows (row ∷ []) rows))

take_transcript-final :
    (c : Call) (text : String) (q : List (String × Bool))
    → c.queue ≡ (text, true) ∷ q
    → take_transcript c ≡ record c { queue = q; consumer = storing_user text }
unfolding take_transcript
take_transcript-final c text q h = ground arith

-- If the next transcript is final and the consumer's waits meet no error, then the consumer stores
-- the user's turn, the reply with the latency that it measured and its tool calls in this order, gives the text to the model, starts to
-- speak the reply unless it is blank, and listens again.
pub run-turn_events :
    (t : TurnResult) (took : ℕ) (text : String) (q : List (String × Bool)) (c : Call)
    → c.consumer_cancelled ≡ false
    → c.consumer ≡ listening
    → c.queue ≡ (text, true) ∷ q
    → let c' = record c {
      queue = q;
      consumer = listening;
      rows =
          c.rows
          ++ (turn "user" text none
              ∷ turn "assistant" t.text (some took)
              ∷ map tool_call t.tool_calls);
      user_texts = c.user_texts ++ (text ∷ []);
    } in
      run c (turn_events t took) ≡ (if is_blank t.text then c' else speak t.text false c')
unfolding run reply consume
run-turn_events t took text q c live at_rest heard =
    let c1 = record c { queue = q; consumer = storing_user text } in
    let c2 = record c1 {
      rows = c.rows ++ (turn "user" text none ∷ []);
      consumer = closing_user text;
    } in
    let c3 = record c2 { user_texts = c.user_texts ++ (text ∷ []); consumer = thinking } in
    let c4 = record c3 { consumer = storing_reply t (reply_rows t took) } in
    let es = storing_events (reply_rows t took) in
    let answer = consumer_wakes (answered t took) in
    let e1 : step c (consumer_wakes ready) ≡ c1 =
      step-consume c listening ready live at_rest ∙ take_transcript-final c text q heard in
    let e2 : step c1 (consumer_wakes ready) ≡ c2 =
      step-consume c1 (storing_user text) ready live refl in
    let e3 : step c2 (consumer_wakes ready) ≡ c3 =
      step-consume c2 (closing_user text) ready live refl in
    let e4 : step c3 answer ≡ c4 = step-consume c3 thinking (answered t took) live refl in
    ap (λ x. run x (consumer_wakes ready ∷ consumer_wakes ready ∷ answer ∷ es)) e1
    ∙ (ap (λ x. run x (consumer_wakes ready ∷ answer ∷ es)) e2
        ∙ (ap (λ x. run x (answer ∷ es)) e3
            ∙ (ap (λ x. run x es) e4
                ∙ (ap (run c4) (sym (append-nil es))
                    ∙ (run-storing_events t (reply_rows t took) c4 [] live refl
                        ∙ ap (λ x. reply t (record c4 { rows = x }))
                            (append_assoc c.rows (turn "user" text none ∷ [])
                              (reply_rows t took)))))))
