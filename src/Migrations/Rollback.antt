-- ===== src/Migrations/Rollback.antt =====
-- The initial revision and its way back.
use fastapi_claude_voice_age.Base.{◌≡◌, refl, ◌∙◌, arith}
use fastapi_claude_voice_age.Python.{Result, ok, raise, ◌>>=◌}
use fastapi_claude_voice_age.Migrations.{Operations, Drops, Undoes}
use fastapi_claude_voice_age.Migrations.Revision.{
  call_sessions, transcript_turns, tool_calls, ix_from_number, ix_turns, ix_tool_calls, upgrade,
  downgrade,
}

-- A chain that gives a result gave one at its first step.
>>=-ok :
    {A B : Type 0} (r : Result A) (f : A → Result B) (b : B)
    → (r >>= f) ≡ ok b
    → (a : A) × (r ≡ ok a) × (f a ≡ ok b)
>>=-ok (ok a) f b h = (a, refl, h)
>>=-ok (raise e) f b h = ground (arith, h)

-- `back` with more work after it does what that work does before `made` was run.
record Back {S : Type 0} (made : S → Result S) (back : (S → Result S) → S → Result S) : Type 0 where
  goes_back : (s s' : S) → made s ≡ ok s' → (rest : S → Result S) → back rest s' ≡ rest s

module _ {S : Type 0} where
  undo_last : {f g : S → Result S} → Undoes f g → Back f (λ rest s. g s >>= rest)
  undo_last law = record { goes_back = λ s s' h rest. rw (law.gives_back s s' h) refl }

  undo_first :
      {f g k : S → Result S} {d : (S → Result S) → S → Result S}
      → Undoes f g
      → Back k d
      → Back (λ s. f s >>= k) (λ rest. d (λ x. g x >>= rest))
  undo_first {f = f} {g = g} {k = k} law undo = record {
    goes_back = λ s s' h rest.
        let (s1, h1, h2) = >>=-ok (f s) k s' h in
        undo.goes_back s1 s' h2 (λ x. g x >>= rest) ∙ rw (law.gives_back s s1 h1) refl;
  }

  undo_chain :
      {f g k : S → Result S} {d : (S → Result S) → S → Result S}
      → Undoes f g
      → Back k d
      → Undoes (λ s. f s >>= k) (d g)
  undo_chain {f = f} {g = g} {k = k} law undo = record {
    gives_back = λ s s' h.
        let (s1, h1, h2) = >>=-ok (f s) k s' h in
        undo.goes_back s1 s' h2 g ∙ law.gives_back s s1 h1;
  }

module _ {S : Type 0} (op : Operations S) (law : Drops op) where
  rolls_back : Undoes (upgrade op) (downgrade op)
  unfolding upgrade downgrade call_sessions transcript_turns tool_calls ix_from_number ix_turns
      ix_tool_calls
  rolls_back = undo_chain (law.drops_table call_sessions) (
      undo_first (law.drops_index ix_from_number) (
        undo_first (law.drops_table transcript_turns) (
          undo_first (law.drops_index ix_turns)
            (undo_first (law.drops_table tool_calls) (undo_last (law.drops_index ix_tool_calls))))))

  -- Where each drop undoes the creation of what it names, a downgrade after an upgrade that went
  -- through gives the database back as it was.
  pub downgrade-upgrade : (s s' : S) → upgrade op s ≡ ok s' → downgrade op s' ≡ ok s
  downgrade-upgrade = rolls_back.gives_back
