-- ===== src/Orchestrator/Storage/Scope.antt =====
-- Several writes in one `session_scope`, as `_handle_user_turn` makes them for a reply. Each method of
-- the repository commits by itself.
use fastapi_claude_voice_age.Base.{
  ◌≡◌, refl, sym, ap, ◌∙◌, inl, inr, ℕ, suc, ◌+◌, String, some, List, [], ◌∷◌, ◌++◌, length, arith,
}
use fastapi_claude_voice_age.Python.{Exn, Result, ok, raise, Result-cases}
use fastapi_claude_voice_age.Persistence.{Database}
use fastapi_claude_voice_age.Persistence.Engine.{
  Engine, factory, AsyncSession, commit, rollback, leave, session_scope,
}
use fastapi_claude_voice_age.Orchestrator.Call.{Row}
use fastapi_claude_voice_age.Orchestrator.Storage.{store, store_all}

-- One method of the repository: `add` and `commit`. When the tables refuse the row the transaction
-- is rolled back.
unfoldable pub write : String → Row → ℕ → AsyncSession → AsyncSession × Result (Unit {0})
unfolding commit rollback
write sid row now s = elim (store sid row now s.working) [
  | ok db ↦ (commit (record s { working = db }), ok tt)
  | raise e ↦ (rollback s, raise e)
]

-- The methods one after another, up to the first that raises.
unfoldable pub write_all :
    String
    → (ℕ → ℕ)
    → ℕ
    → List Row
    → AsyncSession × Result (Unit {0})
    → AsyncSession × Result (Unit {0})
unfolding write
write_all sid clock n rows (s, raise e) = (s, raise e)
write_all sid clock n [] (s, ok u) = (s, ok u)
write_all sid clock n (row ∷ rows) (s, ok u) =
    write_all sid clock (suc n) rows (write sid row (clock n) s)

abbrev at_rest : Database → AsyncSession
at_rest db = record { stored = db; working = db }

ok_inj : (a b : Database) → ok a ≡ ok b → a ≡ b
ok_inj a b h = cc

module _ (sid : String) where
  write-ok :
      (row : Row) (now : ℕ) (db db' : Database)
      → store sid row now db ≡ ok db'
      → write sid row now (at_rest db) ≡ (at_rest db', ok tt)
  unfolding write commit
  write-ok row now db db' h = rw (h, write) refl

  write-raise :
      (row : Row) (now : ℕ) (db : Database) (e : Exn)
      → store sid row now db ≡ raise e
      → write sid row now (at_rest db) ≡ (at_rest db, raise e)
  unfolding write rollback
  write-raise row now db e h = rw (h, write) refl

module _ (sid : String) (clock : ℕ → ℕ) where
  -- Writes that the tables take, before further ones.
  write_all-store_all :
      (before after : List Row) (n : ℕ) (db db' : Database)
      → store_all sid clock n before db ≡ ok db'
      → write_all sid clock n (before ++ after) (at_rest db, ok tt)
        ≡ write_all sid clock (n + length before) after (at_rest db', ok tt)
  unfolding write_all store_all
  write_all-store_all [] after n db db' h =
      let none_taken : n + length {A = Row} [] ≡ n = omega arith in
      rw (none_taken, ok_inj db db' h) refl
  write_all-store_all (row ∷ before) after n db db' h =
      let one_more : n + length (row ∷ before) ≡ suc n + length before = omega arith in
      elim (Result-cases (store sid row (clock n) db)) [
        | inl (db1, e) ↦
            ap (write_all sid clock (suc n) (before ++ after)) (write-ok sid row (clock n) db db1 e)
            ∙ (write_all-store_all before after (suc n) db1 db' (rw e at h)
                ∙ ap (λ m. write_all sid clock m after (at_rest db', ok tt)) (sym one_more))
        | inr (x, e) ↦ absurd (ground (arith, rw e at h))
      ]

  write_all_refused :
      (before after : List Row) (bad : Row) (n : ℕ) (db db' : Database) (e : Exn)
      → store_all sid clock n before db ≡ ok db'
      → store sid bad (clock (n + length before)) db' ≡ raise e
      → write_all sid clock n (before ++ (bad ∷ after)) (at_rest db, ok tt) ≡ (at_rest db', raise e)
  unfolding write_all
  write_all_refused before after bad n db db' e h k =
      write_all-store_all before (bad ∷ after) n db db' h
      ∙ ap (write_all sid clock (suc (n + length before)) after)
          (write-raise sid bad (clock (n + length before)) db' e k)

  -- If the tables take some writes one after another and refuse the next, then in one `session_scope`
  -- of an engine that is there the exception of the refused write comes out, the writes after it are
  -- not made, and all the writes before it stay stored: the rollback takes nothing back.
  pub session_scope-write_all :
      (before after : List Row) (bad : Row) (n : ℕ) (db db' : Database) (e : Exn) (g : Engine)
      (url : String)
      → g.sessionmaker ≡ some url
      → store_all sid clock n before db ≡ ok db'
      → store sid bad (clock (n + length before)) db' ≡ raise e
      → session_scope (λ s. write_all sid clock n (before ++ (bad ∷ after)) (s, ok tt)) g db
        ≡ (db', raise e)
  unfolding session_scope factory leave rollback
  session_scope-write_all before after bad n db db' e g url is_open h k =
      rw (is_open, factory, session_scope)
        (ap leave (write_all_refused before after bad n db db' e h k))
