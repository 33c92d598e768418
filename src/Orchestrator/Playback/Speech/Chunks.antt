-- ===== src/Orchestrator/Playback/Speech/Chunks.antt =====
-- The full chunks of a speech, and what of it a playback sends.
use fastapi_claude_voice_age.Base.{
  ◌≡◌, refl, sym, ap, ◌∙◌, ℕ, suc, ◌+◌, ◌*◌, ◌/◌, true, leb, Option, none, some, List, [], ◌∷◌,
  ◌++◌, length, take, drop, length-take, take-append-drop, length-append, arith, leb→le, false,
  length-drop, eqb, ◌%◌, if◌then◌else◌,
}
use mathlib.Core.List.{append_assoc}
use fastapi_claude_voice_age.Python.{Exn}
use fastapi_claude_voice_age.Audio.Outgoing.{odd_fragment}
use fastapi_claude_voice_age.Orchestrator.Playback.{Transport, twilio, webrtc, chunk_bytes}
use fastapi_claude_voice_age.Orchestrator.Playback.Wire.{refuses}

abbrev pub concat : List (List ℕ) → List ℕ
concat [] = []
concat (c ∷ cs) = c ++ concat cs

-- The bytes without the rest that does not fill a chunk.
unfoldable pub whole : List ℕ → List ℕ
whole xs = take (length xs / 3200 * 3200) xs

-- What goes out of the bytes of a speech that ends well, or with an exception.
abbrev pub cut : Option Exn → List ℕ → List ℕ
cut none xs = xs
cut (some e) xs = whole xs

take-length : (c zs : List ℕ) (k : ℕ) → take (length c + k) (c ++ zs) ≡ c ++ take k zs
unfolding take
take-length [] zs k =
    let none_taken : length {A = ℕ} [] + k ≡ k = omega arith in ap (λ n. take n zs) none_taken
take-length (x ∷ c) zs k =
    let one_more : length (x ∷ c) + k ≡ suc (length c + k) = omega arith in
    ap (λ n. take n (x ∷ c ++ zs)) one_more ∙ ap (◌∷◌ x) (take-length c zs k)

whole-chunk : (c zs : List ℕ) → length c ≡ 3200 → whole (c ++ zs) ≡ c ++ whole zs
unfolding whole
whole-chunk c zs h =
    let fills : length (c ++ zs) / 3200 * 3200 ≡ length c + length zs / 3200 * 3200 =
      omega (arith, h, length-append c zs) in
    ap (λ n. take n (c ++ zs)) fills ∙ take-length c zs (length zs / 3200 * 3200)

pub cut-chunk :
    (e : Option Exn) (b ys : List ℕ)
    → leb chunk_bytes (length b) ≡ true
    → take chunk_bytes b ++ cut e (drop chunk_bytes b ++ ys) ≡ cut e (b ++ ys)
cut-chunk e b ys h =
    let c = take chunk_bytes b in
    let zs = drop chunk_bytes b ++ ys in
    let split : c ++ zs ≡ b ++ ys =
      sym (append_assoc c (drop chunk_bytes b) ys)
      ∙ ap (λ x. x ++ ys) (take-append-drop chunk_bytes b) in
    let full : length c ≡ 3200 =
      length-take chunk_bytes b ∙ ground (arith, leb→le chunk_bytes (length b) h) in
    elim e as (λ e. c ++ cut e zs ≡ cut e (b ++ ys)) [
      | none ↦ split
      | some x ↦ sym (whole-chunk c zs full) ∙ ap whole split
    ]

pub cut-rest : (e : Exn) (b : List ℕ) → leb chunk_bytes (length b) ≡ false → cut (some e) b ≡ []
unfolding whole take
cut-rest e b h =
    let small : length b / 3200 * 3200 ≡ 0 = ground (arith, h) in ap (λ n. take n b) small

-- What a task ends with, where `e` is the exception of the synthesis and `xs` all its bytes.
abbrev pub ending : Transport → Option Exn → List ℕ → Option Exn
ending t (some x) xs = some x
ending t none xs = if refuses t xs then some odd_fragment else none

-- A chunk that goes out makes no difference to it.
pub ending-drop :
    (t : Transport) (e : Option Exn) (b ys : List ℕ)
    → leb chunk_bytes (length b) ≡ true
    → ending t e (drop chunk_bytes b ++ ys) ≡ ending t e (b ++ ys)
ending-drop t (some x) b ys h = refl
ending-drop webrtc none b ys h = refl
ending-drop twilio none b ys h =
    let rest = drop chunk_bytes b ++ ys in
    let l = leb→le chunk_bytes (length b) h in
    let same : length rest % 2 ≡ length (b ++ ys) % 2 = omega (
      arith,
      l,
      length-drop chunk_bytes b,
      length-append (drop chunk_bytes b) ys,
      length-append b ys,
    ) in
    ap (λ n. if eqb n 1 then some odd_fragment else none) same

pub chunk-taken :
    (t : Transport) (b : List ℕ)
    → leb chunk_bytes (length b) ≡ true
    → refuses t (take chunk_bytes b) ≡ false
chunk-taken webrtc b h = refl
chunk-taken twilio b h =
    let l = leb→le chunk_bytes (length b) h in
    let even : length (take chunk_bytes b) % 2 ≡ 0 = omega (arith, l, length-take chunk_bytes b) in
    ap (λ n. eqb n 1) even
