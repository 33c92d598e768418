-- ===== src/Orchestrator/Playback/Speech/Ends.antt =====
-- How a playback over a speech ends, and what it has sent and stored by then.
use fastapi_claude_voice_age.Base.{
  ◌≡◌, refl, ap, ◌∙◌, inl, inr, ℕ, zero, suc, ◌+◌, ◌≤◌, Bool, true, false, leb, take, drop, String,
  Option, none, some, List, [], ◌∷◌, ◌++◌, length, length-drop, length-append, arith, Bool-cases,
  if◌then◌else◌,
}
use mathlib.Core.List.{append_assoc, append-nil}
use fastapi_claude_voice_age.Python.{Exn}
use fastapi_claude_voice_age.Orchestrator.Playback.{
  Transport, Pc, fresh, receiving, sending, flushing, marking, persisting, done, Playback, Ran,
  chunk_bytes, at, finish, send_mark, pump, flush, stored_turn, go, give, sent_or,
}
use fastapi_claude_voice_age.Orchestrator.Playback.Frames.{
  bytes_of, bytes_of-append, pcm-send_audio, resume-go, go-cancelling,
}
use fastapi_claude_voice_age.Orchestrator.Playback.Speech.{next, perform}
use fastapi_claude_voice_age.Orchestrator.Playback.Speech.Chunks.{
  concat, cut, cut-chunk, cut-rest, ending, ending-drop, chunk-taken,
}
use fastapi_claude_voice_age.Orchestrator.Playback.Wire.{refuses, wire-taken, wire-refused}
use fastapi_claude_voice_age.Audio.Outgoing.{odd_fragment}

abbrev owed : Playback → Pc → List String
owed p (done x) = []
owed p (persisting x) = p.text ∷ []
owed p _ = if p.persist then p.text ∷ [] else []

-- A bound on the sections that are left.
abbrev work : Pc → List (List ℕ) → ℕ
work fresh cs = length cs + length (concat cs) + 6
work (receiving b) cs = length cs + (length b + length (concat cs)) + 5
work (sending b) cs = length cs + (length b + length (concat cs)) + 6
work flushing cs = 4
work marking cs = 3
work (persisting x) cs = 2
work (done x) cs = 0

abbrev IsShort : Pc → Type 0
IsShort (receiving b) = leb chunk_bytes (length b) ≡ false
IsShort _ = Unit

module _ (transport : Transport) (sid : String) where
  -- The bytes that a task has still to send, of those in `buffered` and those to come.
  abbrev to_end : Option Exn → List ℕ → List ℕ
  to_end e ys = cut (ending transport e ys) ys

  abbrev due : Pc → List (List ℕ) → Option Exn → List ℕ
  due fresh cs e = to_end e (concat cs)
  due (receiving b) cs e = to_end e (b ++ concat cs)
  due (sending b) cs e = to_end e (b ++ concat cs)
  due _ cs e = []

  -- The exception that the task will end with.
  abbrev exit : Pc → List (List ℕ) → Option Exn → Option Exn
  exit fresh cs e = ending transport e (concat cs)
  exit (receiving b) cs e = ending transport e (b ++ concat cs)
  exit (sending b) cs e = ending transport e (b ++ concat cs)
  exit (persisting x) cs e = x
  exit (done x) cs e = x
  exit _ cs e = none

  -- One section takes a task on its way, from `pc` with the chunks `cs` to the task of `r` with `rest`.
  record Advances (p : Playback) (pc : Pc) (cs : List (List ℕ)) (e : Option Exn) (r : Ran)
      (rest : List (List ℕ)) : Type 0 where
    sends : bytes_of r.sent ++ due r.task.pc rest e ≡ due pc cs e
    exits : exit r.task.pc rest e ≡ exit pc cs e
    stores : r.stored ++ owed r.task r.task.pc ≡ owed p pc
    short : IsShort r.task.pc
    works : (n : ℕ) → work pc cs ≤ suc n → work r.task.pc rest ≤ n

  ending_rest :
      (xs : List ℕ) (r : Bool)
      → refuses transport xs ≡ r
      → ending transport none (xs ++ []) ≡ (if r then some odd_fragment else none)
  ending_rest xs r h =
      ap (ending transport none) (append-nil xs) ∙ ap (λ c. if c then some odd_fragment else none) h

  -- A full chunk goes out.
  chunk-Advances :
      (p : Playback) (b : List ℕ) (cs : List (List ℕ)) (e : Option Exn)
      → leb chunk_bytes (length b) ≡ true
      → Advances p
          (sending b)
          cs
          e
          (give transport sid p (take chunk_bytes b) (sending (drop chunk_bytes b)))
          cs
  unfolding give sent_or at
  chunk-Advances p b cs e h =
      let (payload, t) =
        wire-taken transport sid (take chunk_bytes b) (chunk-taken transport b h) in
      let same = ending-drop transport e b (concat cs) h in
      record {
        sends =
            rw (t, give, pcm-send_audio, append-nil, same)
              (cut-chunk (ending transport e (b ++ concat cs)) b (concat cs) h);
        exits = rw (t, give) same;
        stores = rw (t, give) refl;
        short = rw (t, give) tt;
        works = λ n l. rw (t, give) (ground (arith, h, l, length-drop chunk_bytes b));
      }

  -- The rest goes out, or is refused.
  rest-Advances :
      (p : Playback) (b : ℕ) (bs : List ℕ)
      → leb chunk_bytes (length (b ∷ bs)) ≡ false
      → Advances p (receiving (b ∷ bs)) [] none (give transport sid p (b ∷ bs) flushing) []
  unfolding give sent_or at finish
  rest-Advances p b bs u = elim (Bool-cases (refuses transport (b ∷ bs))) [
    | inl r ↦
        let t = wire-refused transport sid (b ∷ bs) r in
        let x = ending_rest (b ∷ bs) true r in
        record {
          sends = rw (t, give, x) (ground (arith, cut-rest odd_fragment (b ∷ bs) u, append-nil bs));
          exits = rw (t, give, x) (ground arith);
          stores = rw (t, give) (ground arith);
          short = rw (t, give) (ground arith);
          works = λ n l. rw (t, give) (ground (arith, l));
        }
    | inr r ↦
        let (payload, t) = wire-taken transport sid (b ∷ bs) r in
        let x = ending_rest (b ∷ bs) false r in
        record {
          sends = rw (t, give, pcm-send_audio, x) (append-nil (b ∷ bs ++ []));
          exits = rw (t, give, x) refl;
          stores = rw (t, give) refl;
          short = rw (t, give) tt;
          works = λ n l. rw (t, give) (ground (arith, l));
        }
  ]

  pump-Advances :
      (p : Playback) (b : List ℕ) (cs : List (List ℕ)) (e : Option Exn)
      → Advances p (sending b) cs e (pump transport sid p b) cs
  unfolding pump at
  pump-Advances p b cs e = elim (Bool-cases (leb chunk_bytes (length b))) [
    | inl h ↦ rw (h, pump) (chunk-Advances p b cs e h)
    | inr h ↦ record {
      sends = ground (arith, h);
      exits = ground (arith, h);
      stores = ground (arith, h);
      short = ground (arith, h);
      works = λ n l. ground (arith, h, l);
    }
  ]

  go-Advances :
      (p : Playback) (pc : Pc) (cs : List (List ℕ)) (e : Option Exn)
      → IsShort pc
      → let (w, rest) = next pc cs e in Advances p pc cs e (go transport sid p pc w) rest
  unfolding next go flush send_mark finish at stored_turn
  go-Advances p fresh cs e u = record {
    sends = refl;
    exits = refl;
    stores = refl;
    short = ground arith;
    works = λ n l. ground (arith, l);
  }
  go-Advances p (receiving b) (c ∷ cs) e u =
      let pumped = pump-Advances p (b ++ c) cs e in
      record {
        sends = pumped.sends ∙ ap (to_end e) (append_assoc b c (concat cs));
        exits = pumped.exits ∙ ap (ending transport e) (append_assoc b c (concat cs));
        stores = pumped.stores;
        short = pumped.short;
        works = λ n l.
            pumped.works n (ground (arith, l, length-append b c, length-append c (concat cs)));
      }
  go-Advances p (receiving []) [] none u = record {
    sends = ground arith;
    exits = ground arith;
    stores = ground arith;
    short = ground arith;
    works = λ n l. ground (arith, l);
  }
  go-Advances p (receiving (b ∷ bs)) [] none u = rest-Advances p b bs u
  go-Advances p (receiving b) [] (some x) u = record {
    sends = ground (arith, cut-rest x b u, append-nil b);
    exits = ground (arith);
    stores = ground (arith);
    short = ground arith;
    works = λ n l. ground (arith, l);
  }
  go-Advances p (sending b) cs e u = pump-Advances p b cs e
  go-Advances p flushing cs e u = record {
    sends = ground arith;
    exits = ground arith;
    stores = ground arith;
    short = ground arith;
    works = λ n l. ground (arith, l);
  }
  go-Advances p marking cs e u = record {
    sends = ground arith;
    exits = ground arith;
    stores = ground arith;
    short = ground arith;
    works = λ n l. ground (arith, l);
  }
  go-Advances p (persisting x) cs e u = record {
    sends = refl;
    exits = refl;
    stores = refl;
    short = tt;
    works = λ n l. ground (arith, l);
  }
  go-Advances p (done x) cs e u = record {
    sends = refl;
    exits = refl;
    stores = refl;
    short = tt;
    works = λ n l. ground (arith, l);
  }

  at_end :
      (p : Playback) (pc : Pc) (cs : List (List ℕ)) (e : Option Exn)
      → work pc cs ≤ 0
      → (pc ≡ done (exit pc cs e)) × ([] ≡ due pc cs e) × ([] ≡ owed p pc)
  at_end p (done x) cs e l = (refl, refl, refl)
  at_end p _ cs e l = absurd (ground (arith, l))

  -- With enough sections the task is at its end, with all that was due sent and stored.
  pub perform-done :
      (n : ℕ) (p : Playback) (cs : List (List ℕ)) (e : Option Exn)
      → p.cancelling ≡ false
      → IsShort p.pc
      → work p.pc cs ≤ n
      → let r = perform transport sid n p cs e in
        (r.task.pc ≡ done (exit p.pc cs e))
        × (bytes_of r.sent ≡ due p.pc cs e)
        × (r.stored ≡ owed p p.pc)
  unfolding perform
  perform-done zero p cs e c u l = at_end p p.pc cs e l
  perform-done (suc n) p cs e c u l =
      let (w, rest) = next p.pc cs e in
      let v = go-Advances p p.pc cs e u in
      let (a, b, d) =
        perform-done n (go transport sid p p.pc w).task rest e
          (go-cancelling transport sid p p.pc w ∙ c) v.short (v.works n l) in
      rw (resume-go transport sid p w c) (
        a ∙ ap done v.exits,
        bytes_of-append (go transport sid p p.pc w).sent
              (perform transport sid n (go transport sid p p.pc w).task rest e).sent
            ∙ (ap (λ x. bytes_of (go transport sid p p.pc w).sent ++ x) b ∙ v.sends),
        ap (λ x. (go transport sid p p.pc w).stored ++ x) d ∙ v.stores,
      )
