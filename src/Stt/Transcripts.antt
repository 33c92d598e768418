-- ===== src/Stt/Transcripts.antt =====
-- What the reader puts into the queue, against a plain description of the socket's messages.
use fastapi_claude_voice_age.Base.{
  Option-cases, ◌≡◌, refl, sym, ap, ◌∙◌, inl, inr, arith, String, Bool, true, false, ◌||◌, Option,
  none, some, List, [], ◌∷◌, ◌++◌, ◌⊎◌,
}
use mathlib.Core.List.{append_assoc, append-nil}
use fastapi_claude_voice_age.Python.{Exn, Result, ok, raise, Result-cases}
use fastapi_claude_voice_age.Stt.{
  Raw, bytes, bad_json, over, connection_closed, text, broke, Reader, absent, fresh, reading, ended,
  Stream, parse, to_list, end_reader, on_parsed, on_raw, read, reader_step, close, close_step,
  close, close_step,
}

-- The reader on one message after another.
pub reads : List Raw → Stream → Stream
reads [] s = s
reads (raw ∷ raws) s = reads raws (reader_step raw s)

-- What one message brings: a transcript or nothing, or the end of the reader, by the end of the
-- socket, a text that is no JSON, or a value whose reading raises.
unfoldable pub brings : Raw → Option (Option (String × Bool))
brings bytes = some none
brings (text v) = elim (parse v) [ raise e ↦ none | ok t ↦ some t ]
brings _ = none

-- The transcripts of the messages up to the first that ends the reader.
unfoldable pub heard : List Raw → List (String × Bool)
heard [] = []
heard (raw ∷ raws) = elim (brings raw) [ none ↦ [] | some t ↦ to_list t ++ heard raws ]

pub has_end : List Raw → Bool
has_end [] = false
has_end (raw ∷ raws) = elim (brings raw) [ none ↦ true | some t ↦ has_end raws ]

-- The reader is at its end, and has said so.
Ended : Stream → Type 0
Ended s = (e : Option Exn) × (s.reader ≡ ended e)

reader_step-Ended : (raw : Raw) (s : Stream) → Ended s → reader_step raw s ≡ s
unfolding Ended reader_step read
reader_step-Ended raw s (e, h) = ground (arith, h)

reads-Ended : (raws : List Raw) (s : Stream) → Ended s → reads raws s ≡ s
unfolding reads
reads-Ended [] s h = refl
reads-Ended (raw ∷ raws) s h = ap (reads raws) (reader_step-Ended raw s h) ∙ reads-Ended raws s h

reader_step-on_raw :
    (raw : Raw) (s : Stream)
    → s.reader ≡ reading
    → s.cancelling ≡ false
    → reader_step raw s ≡ on_raw raw s
unfolding reader_step read
reader_step-on_raw raw s h k = ground arith

on_raw-some :
    (raw : Raw) (s : Stream) (t : Option (String × Bool))
    → brings raw ≡ some t
    → on_raw raw s ≡ record s { queue = s.queue ++ to_list t }
unfolding on_raw on_parsed brings
on_raw-some bytes s t b = ground (arith, append-nil s.queue)
on_raw-some (text v) s t b = elim (Result-cases (parse v)) [
  | inl (u, e) ↦ ground (arith, e, b)
  | inr (x, e) ↦ ground (arith, e, b)
]
on_raw-some _ s t b = ground (arith, b)

on_raw-none :
    (raw : Raw) (s : Stream)
    → brings raw ≡ none
    → (e : Option Exn) × (on_raw raw s ≡ end_reader e s)
unfolding on_raw on_parsed brings
on_raw-none bytes s b = ground (arith, b)
on_raw-none bad_json s b = (_, refl)
on_raw-none over s b = (_, refl)
on_raw-none connection_closed s b = (_, refl)
on_raw-none (broke x) s b = (_, refl)
on_raw-none (text v) s b = elim (Result-cases (parse v)) [
  | inl (u, e) ↦ ground (arith, e, b)
  | inr (x, e) ↦ (some x, ground (arith, e))
]

-- A message that goes on puts its transcript; one that does not ends the reader.
reader_step-some :
    (raw : Raw) (s : Stream) (t : Option (String × Bool))
    → s.reader ≡ reading
    → s.cancelling ≡ false
    → brings raw ≡ some t
    → reader_step raw s ≡ record s { queue = s.queue ++ to_list t }
reader_step-some raw s t h k b = reader_step-on_raw raw s h k ∙ on_raw-some raw s t b

pub reader_step-none :
    (raw : Raw) (s : Stream)
    → s.reader ≡ reading
    → s.cancelling ≡ false
    → brings raw ≡ none
    → (e : Option Exn) × (reader_step raw s ≡ end_reader e s)
reader_step-none raw s h k b =
    let (e, p) = on_raw-none raw s b in (e, reader_step-on_raw raw s h k ∙ p)

-- While nobody cancels it, the reader appends to the queue the transcripts of the messages up to the
-- first that ends it, in their order, and closes the stream exactly if there is such a message.
pub reads-heard :
    (raws : List Raw) (s : Stream)
    → s.reader ≡ reading
    → s.cancelling ≡ false
    → ((reads raws s).queue ≡ s.queue ++ heard raws)
      × ((reads raws s).closed ≡ (has_end raws || s.closed))
unfolding reads heard has_end Ended end_reader
reads-heard [] s h k = (sym (append-nil s.queue), refl)
reads-heard (raw ∷ raws) s h k = elim (Option-cases (brings raw)) [
  | inl stops ↦
      let (e, p) = reader_step-none raw s h k stops in
      let q : reads raws (reader_step raw s) ≡ end_reader e s =
        ap (reads raws) p ∙ reads-Ended raws (end_reader e s) (e, refl) in
      ground (arith, q, stops, append-nil s.queue)
  | inr (t, goes) ↦
      let p = reader_step-some raw s t h k goes in
      let s' : Stream = record s { queue = s.queue ++ to_list t } in
      let q : reads raws (reader_step raw s) ≡ reads raws s' = ap (reads raws) p in
      let ih = reads-heard raws s' h k in
      ground (arith, q, goes, ih, append_assoc s.queue (to_list t) (heard raws))
]

on_parsed-queue :
    (r : Result (Option (String × Bool))) (s : Stream)
    → ((on_parsed r s).queue ≡ s.queue)
      ⊎ ((t : String × Bool) × ((on_parsed r s).queue ≡ s.queue ++ (t ∷ [])))
unfolding on_parsed
on_parsed-queue (raise e) s = inl refl
on_parsed-queue (ok none) s = inl (append-nil s.queue)
on_parsed-queue (ok (some t)) s = inr (t, refl)

on_raw-queue :
    (raw : Raw) (s : Stream)
    → ((on_raw raw s).queue ≡ s.queue)
      ⊎ ((t : String × Bool) × ((on_raw raw s).queue ≡ s.queue ++ (t ∷ [])))
unfolding on_raw
on_raw-queue (text v) s = on_parsed-queue (parse v) s
on_raw-queue bytes s = inl refl
on_raw-queue bad_json s = inl refl
on_raw-queue over s = inl refl
on_raw-queue connection_closed s = inl refl
on_raw-queue (broke e) s = inl refl

read-queue :
    (r : Reader) (raw : Raw) (s : Stream)
    → ((read r raw s).queue ≡ s.queue)
      ⊎ ((t : String × Bool) × ((read r raw s).queue ≡ s.queue ++ (t ∷ [])))
unfolding read on_raw
read-queue absent raw s = inl refl
read-queue (ended e) raw s = inl refl
read-queue fresh raw s = inl (ground arith)
read-queue reading raw s = ground (arith, on_raw-queue raw s)

-- One section of the reader puts at most one transcript into the queue, at its end.
pub reader_step-queue :
    (raw : Raw) (s : Stream)
    → ((reader_step raw s).queue ≡ s.queue)
      ⊎ ((t : String × Bool) × ((reader_step raw s).queue ≡ s.queue ++ (t ∷ [])))
unfolding reader_step
reader_step-queue raw s = read-queue s.reader raw s

-- A closed stream stays closed.
on_parsed-closed :
    (r : Result (Option (String × Bool))) (s : Stream)
    → s.closed ≡ true
    → (on_parsed r s).closed ≡ true
unfolding on_parsed end_reader
on_parsed-closed r s h = ground arith

on_raw-closed : (raw : Raw) (s : Stream) → s.closed ≡ true → (on_raw raw s).closed ≡ true
unfolding on_raw end_reader
on_raw-closed (text v) s h = on_parsed-closed (parse v) s h
on_raw-closed bytes s h = h
on_raw-closed bad_json s h = refl
on_raw-closed over s h = refl
on_raw-closed connection_closed s h = refl
on_raw-closed (broke e) s h = refl

pub closed-reader_step :
    (raw : Raw) (s : Stream) → s.closed ≡ true → (reader_step raw s).closed ≡ true
unfolding reader_step read end_reader
closed-reader_step raw s h = ground (arith, on_raw-closed raw s h)

pub closed-close : (s : Stream) → (close s).closed ≡ true
unfolding close
closed-close s = ground arith

pub closed-close_step :
    (outcome : Result (Unit {0})) (s : Stream)
    → s.closed ≡ true
    → (close_step outcome s).closed ≡ true
unfolding close_step
closed-close_step outcome s h = ground arith
