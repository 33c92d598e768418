-- ===== src/Migrations/Models.antt =====
-- app/persistence/models.py as SQLAlchemy's metadata: the tables and indexes that the mapped classes
-- declare, and that the initial revision makes the same.
use fastapi_claude_voice_age.Base.{
  ◌≡◌, refl, String, ◌<>◌, Bool, true, false, some, List, [], ◌∷◌, map, if◌then◌else◌,
}
use fastapi_claude_voice_age.Python.{Result, ok, raise, ◌>>=◌}
use fastapi_claude_voice_age.Migrations.{
  Kind, string, date_time, integer, text, json, Column, Index, column, key, call_sid_key,
  Operations,
}
use fastapi_claude_voice_age.Migrations.Revision.{
  call_sessions, transcript_turns, tool_calls, ix_from_number, ix_turns, ix_tool_calls, upgrade,
}

-- A mapped column, and whether it has `index=True`.
pub record Mapped : Type 0 where
  pub column : Column
  pub index : Bool

pub record Model : Type 0 where
  pub tablename : String
  pub columns : List Mapped

-- `Mapped[T] = mapped_column(kind)`, where `T` alone says that there is no NULL.
unfoldable pub mapped : String → Kind → Mapped
unfolding column
mapped name kind = record { column = record (column name kind) { nullable = false }; index = false }

-- `Mapped[T | None]`
unfoldable pub mapped_optional : String → Kind → Mapped
unfolding column
mapped_optional name kind = record { column = column name kind; index = false }

unfoldable pub mapped_key : Mapped → Mapped
unfolding key
mapped_key m = record m { column = key m.column }

unfoldable pub stamped : String → Mapped
unfolding mapped
stamped name =
    let m = mapped name (date_time true) in
    record m { column = record m.column { server_default = some "now()" } }

unfoldable pub row_id : Mapped
unfolding mapped mapped_key
row_id =
    let m = mapped_key (mapped "id" integer) in
    record m { column = record m.column { autoincrement = true } }

unfoldable pub owner : Mapped
unfolding mapped call_sid_key
owner =
    let m = mapped "call_sid" (string 64) in
    record { column = record m.column { references = some call_sid_key }; index = true }

unfoldable pub call_session_model : Model
unfolding mapped mapped_optional mapped_key stamped
call_session_model = record {
  tablename = "call_sessions";
  columns =
      mapped_key (mapped "call_sid" (string 64))
      ∷ record (mapped "from_number" (string 32)) { index = true }
      ∷ stamped "started_at"
      ∷ mapped_optional "ended_at" (date_time true)
      ∷ [];
}

unfoldable pub transcript_turn_model : Model
unfolding mapped mapped_optional stamped row_id owner
transcript_turn_model = record {
  tablename = "transcript_turns";
  columns =
      row_id
      ∷ owner
      ∷ mapped "role" (string 16)
      ∷ mapped "text" text
      ∷ mapped_optional "latency_ms" integer
      ∷ stamped "created_at"
      ∷ [];
}

unfoldable pub tool_call_model : Model
unfolding mapped mapped_optional stamped row_id owner
tool_call_model = record {
  tablename = "tool_calls";
  columns =
      row_id
      ∷ owner
      ∷ mapped "tool_name" (string 64)
      ∷ mapped "input_json" json
      ∷ mapped "output_json" json
      ∷ mapped_optional "latency_ms" integer
      ∷ stamped "created_at"
      ∷ [];
}

-- The index of a column, named by SQLAlchemy's own rule.
index_of : String → Column → Index
index_of table c = record {
  name = "ix_" <> (table <> ("_" <> c.name));
  table = table;
  columns = c.name ∷ [];
}

module _ {S : Type 0} (op : Operations S) where
  create_indexes : String → List Mapped → S → Result S
  unfolding index_of
  create_indexes table [] s = ok s
  create_indexes table (m ∷ ms) s =
      if m.index
      then (op.create_index (index_of table m.column) s >>= create_indexes table ms)
      else create_indexes table ms s

  -- The tables of the models, in the order of their classes, each with its indexes.
  unfoldable pub declare : List Model → S → Result S
  unfolding create_indexes
  declare [] s = ok s
  declare (m ∷ ms) s = do
    s1 ← op.create_table (record { name = m.tablename; columns = map (λ c. c.column) m.columns }) s
    s2 ← create_indexes m.tablename m.columns s1
    declare ms s2

>>=-ok : {A : Type 0} (r : Result A) → (r >>= ok) ≡ r
>>=-ok (ok a) = refl
>>=-ok (raise e) = refl

-- On each database the initial revision does what the models declare: the same tables with the same
-- columns, and the same indexes under the names that `index=True` gives them.
pub upgrade-declare :
    {S : Type 0} (op : Operations S) (s : S)
    → upgrade op s
      ≡ declare op (call_session_model ∷ transcript_turn_model ∷ tool_call_model ∷ []) s
unfolding upgrade declare create_indexes index_of call_session_model transcript_turn_model
    tool_call_model mapped mapped_optional mapped_key stamped row_id owner call_sessions
    transcript_turns tool_calls ix_from_number ix_turns ix_tool_calls column key call_sid_key
upgrade-declare op s = simp (>>=-ok)
