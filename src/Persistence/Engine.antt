-- ===== src/Persistence/Engine.antt =====
-- app/persistence/db.py: the engine of the process, and the sessions on it.
use fastapi_claude_voice_age.Base.{String, Option, none, some}
use fastapi_claude_voice_age.Python.{runtime_error, Result, ok, raise, ◌>>◌}
use fastapi_claude_voice_age.Persistence.{Database}

-- The two globals, each by the URL that it was made for.
pub record Engine : Type 0 where
  pub engine : Option String
  pub sessionmaker : Option String

-- SQLAlchemy's `create_async_engine` raises for a URL that it cannot read and for a driver that is not
-- async; nothing has changed then.
module _ (create_async_engine : String → Result (Unit {0})) where
  unfoldable pub init_engine : String → Engine → Result Engine
  init_engine database_url g = do
    create_async_engine database_url
    ok (record { engine = some database_url; sessionmaker = some database_url })

-- `disposed` is what `dispose` of the engine gave.
unfoldable pub dispose_engine : (disposed : Result (Unit {0})) → Engine → Engine × Result (Unit {0})
dispose_engine disposed g =
    let gone : Engine = record { engine = none; sessionmaker = none } in
    elim g.engine [
      | none ↦ (gone, ok tt)
      | some url ↦ elim disposed [ ok u ↦ (gone, ok tt) | raise e ↦ (g, raise e) ]
    ]

-- `_factory`
unfoldable pub factory : Engine → Result String
factory g = elim g.sessionmaker [
  | none ↦ raise (runtime_error "DB engine not initialized; call init_engine() first.")
  | some url ↦ ok url
]

-- An `AsyncSession`: the tables as they are stored, and as the open transaction has them.
pub record AsyncSession : Type 0 where
  pub stored : Database
  pub working : Database

unfoldable pub commit : AsyncSession → AsyncSession
commit s = record s { stored = s.working }

unfoldable pub rollback : AsyncSession → AsyncSession
rollback s = record s { working = s.stored }

-- The end of `session_scope`, after what its body did.
unfoldable pub leave : AsyncSession × Result (Unit {0}) → Database × Result (Unit {0})
unfolding commit rollback
leave (s, ok u) = ((commit s).stored, ok tt)
leave (s, raise e) = ((rollback s).stored, raise e)

-- `session_scope` around a body, with the tables that it leaves and what comes out of it. The body is
-- taken to raise no CancelledError, which is no `Exception`; and the last commit goes through.
unfoldable pub session_scope :
    (AsyncSession → AsyncSession × Result (Unit {0}))
    → Engine
    → Database
    → Database × Result (Unit {0})
unfolding factory leave
session_scope body g db = elim (factory g) [
  | raise e ↦ (db, raise e)
  | ok url ↦ leave (body (record { stored = db; working = db }))
]
