-- ===== src/Llm/Turns.antt =====
-- What a turn returns: the replies up to the first that is final, their texts joined, their tokens
-- added up, and each tool use of the others run once, in order.
use fastapi_claude_voice_age.Base.{
  ℕ, ◌+◌, ◌≡◌, refl, sym, ◌∙◌, ap, Bool, ◌&&◌, String, List, [], ◌∷◌, ◌++◌, map, arith, All, length,
  length-append, if◌then◌else◌,
}
use mathlib.Core.List.{append-nil}
use fastapi_claude_voice_age.Python.{Fields, Exn, is_blank}
use fastapi_claude_voice_age.Tools.World.{World}
use fastapi_claude_voice_age.Tools.Registry.{ToolRegistry}
use fastapi_claude_voice_age.Llm.{
  Reply, Answer, replied, failed, StreamEvent, Message, Loop, finished, raised, waiting,
  delta_chunks, or_zero, is_refusal, refusal_fallback_text, send, absorb, fall_back, close_turn,
  begin, run_loop, run_turn,
}
use fastapi_claude_voice_age.Llm.Steps.{
  heard, verdict, refused, spoken, asked, run_loop-refused, run_loop-spoken,
}
use fastapi_claude_voice_age.Llm.Sums.{
  IsAsking, IsFinal, joined, total, uses_of, called, asked_for, joined-snoc, total-snoc,
}
use fastapi_claude_voice_age.Llm.Rounds.{rounds, run_loop-rounds, rounds-Follows, length-requests}

-- What the caller of `run_turn` gets: the sums over the replies, the tools of all replies but the
-- last, and the joined text, or the apology if the last is a refusal and the text is blank.
pub record IsTurnOf (rs : List Reply) (final : Reply) (s : Loop) : Type 0 where
  pub text :
      let t = joined "" (rs ++ (final ∷ [])) in
      s.result.text ≡ (if is_refusal final && is_blank t then refusal_fallback_text else t)
  pub calls : called s.result.tool_calls ≡ asked_for (uses_of rs)
  pub input : s.result.input_tokens ≡ total (λ r. r.usage.input_tokens) (rs ++ (final ∷ []))
  pub output : s.result.output_tokens ≡ total (λ r. r.usage.output_tokens) (rs ++ (final ∷ []))
  pub cache_read :
      s.result.cache_read_tokens
      ≡ total (λ r. or_zero r.usage.cache_read_input_tokens) (rs ++ (final ∷ []))
  pub cache_creation :
      s.result.cache_creation_tokens
      ≡ total (λ r. or_zero r.usage.cache_creation_input_tokens) (rs ++ (final ∷ []))
  pub requests : length s.requests ≡ length rs + 1

module _ (dumps : Fields → String) (registry : ToolRegistry) where
  last_loop : Bool → ℕ → List Message → World → List Reply → Reply → Loop
  last_loop listening started messages w rs final =
      let s = heard listening final (rounds dumps registry listening rs (begin messages w)) in
      close_turn started (if is_refusal final then fall_back s else s)

  last_loop-IsTurnOf :
      (listening : Bool) (started : ℕ) (messages : List Message) (w : World) (rs : List Reply)
      (final : Reply)
      → IsTurnOf rs final (last_loop listening started messages w rs final)
  unfolding last_loop send absorb close_turn fall_back begin
  last_loop-IsTurnOf listening started messages w rs final =
      let f = rounds-Follows dumps registry listening rs (begin messages w) in
      record {
        text = ground (arith, f.text, joined-snoc "" rs final);
        calls = ground (arith, f.calls);
        input = ground (arith, f.input, total-snoc (λ r. r.usage.input_tokens) rs final);
        output = ground (arith, f.output, total-snoc (λ r. r.usage.output_tokens) rs final);
        cache_read = ground (
          arith,
          f.cache_read,
          total-snoc (λ r. or_zero r.usage.cache_read_input_tokens) rs final,
        );
        cache_creation = ground (
          arith,
          f.cache_creation,
          total-snoc (λ r. or_zero r.usage.cache_creation_input_tokens) rs final,
        );
        requests = ground (
          arith,
          length-requests dumps registry listening rs (begin messages w),
          length-append (rounds dumps registry listening rs (begin messages w)).requests
              ((rounds dumps registry listening rs (begin messages w)).messages ∷ []),
        );
      }

  run_loop-final :
      (listening : Bool) (started : ℕ) (final : Reply) (later : List Answer) (s : Loop)
      → IsFinal final
      → run_loop dumps registry listening started (replied final ∷ later) s
        ≡ finished (
            close_turn started (
              if is_refusal final
              then fall_back (heard listening final s)
              else heard listening final s))
  run_loop-final listening started final later s end = elim (verdict final) [
    | refused e ↦ run_loop-refused dumps registry listening started final later s e ∙ rw e
    | spoken e f ↦ run_loop-spoken dumps registry listening started final later s e f ∙ rw e
    | asked u us e f ↦ absurd (ground arith)
  ]

  run_turn-run_loop :
      (listening : Bool) (messages : List Message) (w : World) (answers : List Answer)
      → run_turn dumps registry listening messages w answers
        ≡ run_loop dumps registry listening w.now answers (begin messages w)
  unfolding run_turn
  run_turn-run_loop listening messages w answers = refl

  -- If each of the replies `rs` asks for tools and the next one, `final`, does not or is a refusal,
  -- then the turn finishes with `final`, whatever answers come later. Its text is the texts of these
  -- replies joined, or the apology if `final` is a refusal and the text is blank; its token counts
  -- are their sums; its tool calls are the tool uses of `rs`, in order; one request went out for each.
  pub run_turn-IsTurnOf :
      (listening : Bool) (messages : List Message) (w : World) (rs : List Reply) (final : Reply)
      (later : List Answer)
      → All IsAsking rs
      → IsFinal final
      → (s : Loop) × (run_turn dumps registry listening messages w
            (map replied rs ++ (replied final ∷ later))
          ≡ finished s)
        × IsTurnOf rs final s
  unfolding last_loop
  run_turn-IsTurnOf listening messages w rs final later h end = (
    last_loop listening w.now messages w rs final,
    run_turn-run_loop listening messages w _
        ∙ (run_loop-rounds dumps registry listening w.now rs (replied final ∷ later)
              (begin messages w) h
            ∙ run_loop-final listening w.now final later _ end),
    last_loop-IsTurnOf listening w.now messages w rs final,
  )

  -- If each of the replies `rs` asks for tools and the next request fails with an exception, then the
  -- turn raises this exception, after one request for each reply and one more, with the tools of
  -- `rs` already run.
  pub run_turn_failed :
      (listening : Bool) (messages : List Message) (w : World) (rs : List Reply)
      (es : List StreamEvent) (e : Exn) (later : List Answer)
      → All IsAsking rs
      → (s : Loop) × (run_turn dumps registry listening messages w
            (map replied rs ++ (failed es e ∷ later))
          ≡ raised e s)
        × (called s.result.tool_calls ≡ asked_for (uses_of rs))
        × (length s.requests ≡ length rs + 1)
  unfolding run_loop begin
  run_turn_failed listening messages w rs es e later h =
      let s = rounds dumps registry listening rs (begin messages w) in
      (
        record (send s) { chunks = s.chunks ++ delta_chunks listening es },
        run_turn-run_loop listening messages w _
            ∙ run_loop-rounds dumps registry listening w.now rs (failed es e ∷ later)
                (begin messages w) h,
        (rounds-Follows dumps registry listening rs (begin messages w)).calls,
        ground (
          arith,
          length-requests dumps registry listening rs (begin messages w),
          length-append s.requests (s.messages ∷ []),
        ),
      )

  -- If each of the replies `rs` asks for tools and no further answer comes, the turn waits for one:
  -- the loop has no bound of its own.
  pub run_turn-waiting :
      (listening : Bool) (messages : List Message) (w : World) (rs : List Reply)
      → All IsAsking rs
      → (s : Loop) × (run_turn dumps registry listening messages w (map replied rs) ≡ waiting s)
        × (length s.requests ≡ length rs + 1)
  unfolding run_loop begin
  run_turn-waiting listening messages w rs h =
      let s = rounds dumps registry listening rs (begin messages w) in
      (
        send s,
        ap (run_turn dumps registry listening messages w) (sym (append-nil (map replied rs)))
            ∙ (run_turn-run_loop listening messages w _
                ∙ run_loop-rounds dumps registry listening w.now rs [] (begin messages w) h),
        ground (
          arith,
          length-requests dumps registry listening rs (begin messages w),
          length-append s.requests (s.messages ∷ []),
        ),
      )
