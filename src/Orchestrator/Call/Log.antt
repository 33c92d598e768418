-- ===== src/Orchestrator/Call/Log.antt =====
-- The stored transcript and the model's history.
use fastapi_claude_voice_age.Base.{
  ℕ, ◌≤◌, length, sym, ◌≡◌, refl, ap, subst, ◌∙◌, String, Option, none, some, List, [], ◌∷◌, ◌++◌,
  map, arith, ◌==◌, if◌then◌else◌, inl, inr, Bool-cases,
}
use mathlib.Core.List.{append-nil}
use fastapi_claude_voice_age.Python.{Exn, Result, ok, raise, is_blank}
use fastapi_claude_voice_age.Llm.{TurnResult, ToolCall}
use fastapi_claude_voice_age.Orchestrator.Playback.{Transport, Wake, Playback, resume}
use fastapi_claude_voice_age.Orchestrator.Call.{
  Row, session, turn, tool_call, ended, Consumer, listening, storing_user, closing_user, thinking,
  storing_reply, gone, Heard, ready, stream_over, answered, failed, Call, Event, transcribed,
  consumer_wakes, playback_wakes, former_wakes, stop_called, stop_goes_on, start, speak,
  take_transcript, cancel_speak, reply, consume, wake_current, wake_former, stop, finish_stop, step,
  run,
}

abbrev ok_or : Call → Result Call → Call
ok_or c (ok a) = a
ok_or c (raise e) = c

-- The texts of the turns stored with the role `user`.
abbrev pub user_turns : List Row → List String
user_turns [] = []
user_turns (turn role text latency ∷ rows) =
    if role == "user" then text ∷ user_turns rows else user_turns rows
user_turns (_ ∷ rows) = user_turns rows

user_turns-append : (xs ys : List Row) → user_turns (xs ++ ys) ≡ user_turns xs ++ user_turns ys
user_turns-append [] ys = refl
user_turns-append (session a b ∷ xs) ys = user_turns-append xs ys
user_turns-append (tool_call t ∷ xs) ys = user_turns-append xs ys
user_turns-append (ended ∷ xs) ys = user_turns-append xs ys
user_turns-append (turn role text latency ∷ xs) ys = ground (arith, user_turns-append xs ys)

user_turns-tool_calls : (ts : List ToolCall) → user_turns (map tool_call ts) ≡ []
user_turns-tool_calls [] = refl
user_turns-tool_calls (t ∷ ts) = user_turns-tool_calls ts

user_turns-assistant :
    (texts : List String) → user_turns (map (λ text. turn "assistant" text none) texts) ≡ []
user_turns-assistant [] = refl
user_turns-assistant (t ∷ ts) = user_turns-assistant ts

-- The rows that the consumer has yet to store are none of the user's.
abbrev Waits : Consumer → Type 0
Waits (storing_reply t rows) = user_turns rows ≡ []
Waits _ = Unit

-- The texts that are stored and that the model has not got: that of the turn whose scope closes, and
-- when the consumer ended there, that one.
abbrev pub Ungiven : Consumer → List String → Type 0
Ungiven (closing_user text) more = more ≡ text ∷ []
Ungiven (gone e) more = length more ≤ 1
Ungiven _ more = more ≡ []

record IsLogged (c : Call) : Type 0 where
  more : List String
  same : user_turns c.rows ≡ c.user_texts ++ more
  ungiven : Ungiven c.consumer more
  waits : Waits c.consumer

-- Rows that are none of the user's change nothing here.
appended :
    (xs ys : List Row) {texts : List String}
    → user_turns xs ≡ texts
    → user_turns ys ≡ []
    → user_turns (xs ++ ys) ≡ texts
appended xs ys h e =
    user_turns-append xs ys ∙ (ap (λ t. user_turns xs ++ t) e ∙ (append-nil (user_turns xs) ∙ h))

head_waits :
    (row : Row) (rows : List Row)
    → user_turns (row ∷ rows) ≡ []
    → (user_turns (row ∷ []) ≡ []) × (user_turns rows ≡ [])
head_waits (session a b) rows h = (refl, h)
head_waits (tool_call t) rows h = (refl, h)
head_waits ended rows h = (refl, h)
head_waits (turn role text latency) rows h = ground arith

-- A consumer that ends leaves at most one text that the model has not got.
gone-Ungiven : (k : Consumer) (more : List String) → Ungiven k more → length more ≤ 1
gone-Ungiven (closing_user text) more h = rw h (omega arith)
gone-Ungiven (gone e) more h = h
gone-Ungiven listening more h = rw h (omega arith)
gone-Ungiven (storing_user text) more h = rw h (omega arith)
gone-Ungiven thinking more h = rw h (omega arith)
gone-Ungiven (storing_reply t rows) more h = rw h (omega arith)

ended-IsLogged :
    (k : Consumer) (e : Option Exn) (c : Call)
    → c.consumer ≡ k
    → IsLogged c
    → IsLogged (record c { consumer = gone e })
ended-IsLogged k e c at v = record {
  more = v.more;
  same = v.same;
  ungiven = gone-Ungiven c.consumer v.more v.ungiven;
  waits = tt;
}

reply-IsLogged :
    (t : TurnResult) (c : Call) → user_turns c.rows ≡ c.user_texts ++ [] → IsLogged (reply t c)
unfolding reply speak
reply-IsLogged t c h = elim (Bool-cases (is_blank t.text)) [
  | inl e ↦ rw (e, reply) (record { more = []; same = h; ungiven = refl; waits = tt })
  | inr e ↦ rw (e, reply) (record { more = []; same = h; ungiven = refl; waits = tt })
]

-- The stored turns of a consumer that has no text to give.
settled : (c : Call) (v : IsLogged c) → v.more ≡ [] → user_turns c.rows ≡ c.user_texts ++ []
settled c v e = v.same ∙ ap (λ x. c.user_texts ++ x) e

take_transcript-IsLogged :
    (c : Call) → IsLogged c → c.consumer ≡ listening → IsLogged (take_transcript c)
unfolding take_transcript cancel_speak
take_transcript-IsLogged c v e =
    let same = settled c v (subst (λ k. Ungiven k v.more) e v.ungiven) in ground arith

storing_user-IsLogged :
    (text : String) (c : Call)
    → c.consumer ≡ storing_user text
    → IsLogged c
    → IsLogged (consume (storing_user text) ready c)
unfolding consume
storing_user-IsLogged text c e v = record {
  more = text ∷ [];
  same =
      user_turns-append c.rows (turn "user" text none ∷ [])
      ∙ ap (λ t. t ++ (text ∷ []))
          (settled c v (subst (λ k. Ungiven k v.more) e v.ungiven) ∙ append-nil c.user_texts);
  ungiven = refl;
  waits = tt;
}

closing_user-IsLogged :
    (text : String) (c : Call)
    → c.consumer ≡ closing_user text
    → IsLogged c
    → IsLogged (consume (closing_user text) ready c)
unfolding consume
closing_user-IsLogged text c e v = record {
  more = [];
  same =
      v.same
      ∙ (ap (λ x. c.user_texts ++ x) (subst (λ k. Ungiven k v.more) e v.ungiven)
          ∙ sym (append-nil (c.user_texts ++ (text ∷ []))));
  ungiven = refl;
  waits = tt;
}

storing_reply-IsLogged :
    (t : TurnResult) (row : Row) (rest : List Row) (c : Call)
    → c.consumer ≡ storing_reply t (row ∷ rest)
    → IsLogged c
    → IsLogged (consume (storing_reply t (row ∷ rest)) ready c)
unfolding consume
storing_reply-IsLogged t row rest c e v =
    let split = head_waits row rest (subst Waits e v.waits) in
    record {
      more = v.more;
      same = appended c.rows (row ∷ []) v.same split.0;
      ungiven = subst (λ k. Ungiven k v.more) e v.ungiven;
      waits = split.1;
    }

consume-IsLogged :
    (k : Consumer) (heard : Heard) (c : Call)
    → c.consumer ≡ k
    → IsLogged c
    → IsLogged (consume k heard c)
unfolding consume
consume-IsLogged listening ready c e v = take_transcript-IsLogged c v e
consume-IsLogged listening stream_over c e v = ended-IsLogged listening none c e v
consume-IsLogged listening (answered t took) c e v = v
consume-IsLogged listening (failed x) c e v = ended-IsLogged listening (some x) c e v
consume-IsLogged (storing_user text) ready c e v = storing_user-IsLogged text c e v
consume-IsLogged (storing_user text) (failed x) c e v =
    ended-IsLogged (storing_user text) (some x) c e v
consume-IsLogged (storing_user text) _ c e v = v
consume-IsLogged (closing_user text) ready c e v = closing_user-IsLogged text c e v
consume-IsLogged (closing_user text) (failed x) c e v =
    ended-IsLogged (closing_user text) (some x) c e v
consume-IsLogged (closing_user text) _ c e v = v
consume-IsLogged thinking (answered t took) c e v = record {
  more = v.more;
  same = v.same;
  ungiven = subst (λ k. Ungiven k v.more) e v.ungiven;
  waits = user_turns-tool_calls t.tool_calls;
}
consume-IsLogged thinking (failed x) c e v = ended-IsLogged thinking (some x) c e v
consume-IsLogged thinking _ c e v = v
consume-IsLogged (storing_reply t (row ∷ rest)) ready c e v =
    storing_reply-IsLogged t row rest c e v
consume-IsLogged (storing_reply t []) ready c e v =
    reply-IsLogged t c (settled c v (subst (λ k. Ungiven k v.more) e v.ungiven))
consume-IsLogged (storing_reply t rows) (failed x) c e v =
    ended-IsLogged (storing_reply t rows) (some x) c e v
consume-IsLogged (storing_reply t rows) _ c e v = v
consume-IsLogged (gone x) heard c e v = v

wake_current-IsLogged :
    (p : Option Playback) (w : Wake) (c : Call) → IsLogged c → IsLogged (wake_current p w c)
unfolding wake_current
wake_current-IsLogged none w c v = v
wake_current-IsLogged (some p) w c v = record {
  more = v.more;
  same =
      appended c.rows _ v.same (user_turns-assistant (resume c.transport c.stream_sid p w).stored);
  ungiven = v.ungiven;
  waits = v.waits;
}

wake_former-IsLogged :
    (passed ps : List Playback) (n : ℕ) (w : Wake) (c : Call)
    → IsLogged c
    → IsLogged (wake_former passed ps n w c)
unfolding wake_former
wake_former-IsLogged passed [] n w c v = v
wake_former-IsLogged passed (p ∷ ps) ℕ.zero w c v = record {
  more = v.more;
  same =
      appended c.rows _ v.same (user_turns-assistant (resume c.transport c.stream_sid p w).stored);
  ungiven = v.ungiven;
  waits = v.waits;
}
wake_former-IsLogged passed (p ∷ ps) (ℕ.suc n) w c v =
    wake_former-IsLogged (passed ++ (p ∷ [])) ps n w c v

consumer-IsLogged :
    (heard : Heard) (c : Call) → IsLogged c → IsLogged (step c (consumer_wakes heard))
unfolding step
consumer-IsLogged heard c v =
    let next = consume-IsLogged c.consumer heard c refl v in
    let cut = ended-IsLogged c.consumer none c refl v in ground arith

finish_stop-IsLogged : (c : Call) → IsLogged c → IsLogged (finish_stop c)
unfolding finish_stop
finish_stop-IsLogged c v = let last = appended c.rows (ended ∷ []) v.same refl in ground arith

step-IsLogged : (c : Call) (e : Event) → IsLogged c → IsLogged (step c e)
step-IsLogged c (transcribed text is_final) v =
    unfold step in record { more = v.more; same = v.same; ungiven = v.ungiven; waits = v.waits }
step-IsLogged c (consumer_wakes heard) v = consumer-IsLogged heard c v
step-IsLogged c (playback_wakes w) v = unfold step in wake_current-IsLogged c.current w c v
step-IsLogged c (former_wakes n w) v = unfold step in wake_former-IsLogged [] c.former n w c v
step-IsLogged c stop_called v = unfold step stop cancel_speak in ground arith
step-IsLogged c stop_goes_on v = unfold step in finish_stop-IsLogged c v

run-IsLogged : (c : Call) (es : List Event) → IsLogged c → IsLogged (run c es)
unfolding run
run-IsLogged c [] v = v
run-IsLogged c (e ∷ es) v = run-IsLogged (step c e) es (step-IsLogged c e v)

-- If `start` returns, then after any events the user's turns in the database are the texts that the
-- model was given, in the same order, and then at most one more: the turn whose scope closes, if the
-- consumer waits for that; one or none, if the consumer has ended; and none otherwise.
pub user_turns-run :
    (transport : Transport) (sid call_sid from_number : String)
    (connected created : Result (Unit {0})) {c : Call} (es : List Event)
    → start transport sid call_sid from_number connected created ≡ ok c
    → (more : List String) × (user_turns (run c es).rows ≡ (run c es).user_texts ++ more)
      × Ungiven (run c es).consumer more
unfolding start speak
user_turns-run transport sid call_sid from_number (ok u) (ok u') {c} es h =
    let v = run-IsLogged c es (
      subst IsLogged (ap (ok_or c) h)
        (record { more = []; same = refl; ungiven = refl; waits = tt })) in
    (v.more, v.same, v.ungiven)
user_turns-run transport sid call_sid from_number (ok u) (raise e) {c} es h = cc
user_turns-run transport sid call_sid from_number (raise e) created {c} es h = cc
