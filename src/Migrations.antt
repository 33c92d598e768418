-- ===== src/Migrations.antt =====
-- migrations/versions and the metadata of app/persistence/models.py: what a table is, and what the code
-- asks of a database that has tables.
pub mod Revision
pub mod Models
pub mod Rollback
pub mod Env
mod Tests
use fastapi_claude_voice_age.Base.{
  ℕ, String, ◌≡◌, Bool, true, false, Option, none, some, List, [], ◌∷◌,
}
use fastapi_claude_voice_age.Python.{Result, ok}

pub data Kind : Type 0 where
  string : (length : ℕ) → Kind
  date_time : (timezone : Bool) → Kind
  integer text json : Kind

-- `sa.ForeignKey`
pub record ForeignKey : Type 0 where
  pub column : String
  pub ondelete : String

pub record Column : Type 0 where
  pub name : String
  pub kind : Kind
  pub primary_key : Bool
  pub autoincrement : Bool
  pub references : Option ForeignKey
  pub server_default : Option String
  pub nullable : Bool

pub record Table : Type 0 where
  pub name : String
  pub columns : List Column

pub record Index : Type 0 where
  pub name : String
  pub table : String
  pub columns : List String

-- `sa.Column(name, kind)`: a column takes NULL unless it is told otherwise.
unfoldable pub column : String → Kind → Column
column name kind = record {
  name = name;
  kind = kind;
  primary_key = false;
  autoincrement = false;
  references = none;
  server_default = none;
  nullable = true;
}

-- `primary_key=True`, which rules out NULL.
unfoldable pub key : Column → Column
key c = record c { primary_key = true; nullable = false }

-- A call's own key, as the tables of its rows refer to it.
unfoldable pub call_sid_key : ForeignKey
call_sid_key = record { column = "call_sessions.call_sid"; ondelete = "CASCADE" }

-- The operations of alembic's `op` on a database `S`.
pub record Operations (S : Type 0) : Type 0 where
  pub create_table : Table → S → Result S
  pub create_index : Index → S → Result S
  pub drop_table : (name : String) → S → Result S
  pub drop_index : (name table : String) → S → Result S

-- An operation that gives back what another has made of a database.
pub record Undoes {S : Type 0} (made undone : S → Result S) : Type 0 where
  pub gives_back : (s s' : S) → made s ≡ ok s' → undone s' ≡ ok s

-- What SQL says of them: DROP takes away what CREATE has just made, and nothing else.
pub record Drops {S : Type 0} (op : Operations S) : Type 0 where
  pub drops_table : (t : Table) → Undoes (op.create_table t) (op.drop_table t.name)
  pub drops_index : (i : Index) → Undoes (op.create_index i) (op.drop_index i.name i.table)
