-- ===== src/Migrations/Tests.antt =====
-- The migration on a database that keeps its tables and indexes in lists, the newest first.
use fastapi_claude_voice_age.Base.{
  ◌≡◌, refl, String, List, [], ◌∷◌, any, ◌==◌, eq_iff, if◌then◌else◌, arith, Bool-cases, inl, inr,
}
use fastapi_claude_voice_age.Python.{ok, raise, other}
use fastapi_claude_voice_age.Migrations.{Table, Index, Operations, Drops}
use fastapi_claude_voice_age.Migrations.Revision.{
  upgrade, downgrade, call_sessions, transcript_turns, tool_calls, ix_from_number, ix_turns,
  ix_tool_calls,
}
use fastapi_claude_voice_age.Migrations.Models.{
  declare, call_session_model, transcript_turn_model, tool_call_model, upgrade-declare,
}
use fastapi_claude_voice_age.Migrations.Rollback.{downgrade-upgrade}

record Catalogue : Type 0 where
  tables : List Table
  indexes : List Index

unfoldable without_table : String → List Table → List Table
without_table name [] = []
without_table name (t ∷ ts) = if t.name == name then ts else t ∷ without_table name ts

unfoldable without_index : String → List Index → List Index
without_index name [] = []
without_index name (i ∷ is) = if i.name == name then is else i ∷ without_index name is

unfoldable lists : Operations Catalogue
lists = record {
  create_table = λ t s.
      if any (λ u. u.name == t.name) s.tables
      then raise (other "DuplicateTable")
      else ok (record s { tables = t ∷ s.tables });
  create_index = λ i s.
      if any (λ j. j.name == i.name) s.indexes
      then raise (other "DuplicateObject")
      else ok (record s { indexes = i ∷ s.indexes });
  drop_table = λ name s. ok (record s { tables = without_table name s.tables });
  drop_index = λ name table s. ok (record s { indexes = without_index name s.indexes });
}

without_table-first : (t : Table) (ts : List Table) → without_table t.name (t ∷ ts) ≡ ts
unfolding without_table
without_table-first t ts = ground (arith, (eq_iff t.name t.name).1 refl)

without_index-first : (i : Index) (is : List Index) → without_index i.name (i ∷ is) ≡ is
unfolding without_index
without_index-first i is = ground (arith, (eq_iff i.name i.name).1 refl)

lists-Drops : Drops lists
unfolding lists
lists-Drops = record {
  drops_table = λ t. record {
    gives_back = λ s s' h. elim (Bool-cases (any (λ u. u.name == t.name) s.tables)) [
      | inl e ↦ ground (arith, e, h)
      | inr e ↦ ground (arith, e, h, without_table-first t s.tables)
    ];
  };
  drops_index = λ i. record {
    gives_back = λ s s' h. elim (Bool-cases (any (λ j. j.name == i.name) s.indexes)) [
      | inl e ↦ ground (arith, e, h)
      | inr e ↦ ground (arith, e, h, without_index-first i s.indexes)
    ];
  };
}

-- A database that has a table of its own.
abbrev own : Catalogue
own = record { tables = record { name = "alembic_version"; columns = [] } ∷ []; indexes = [] }

abbrev upgraded : Catalogue
upgraded = record {
  tables = tool_calls ∷ transcript_turns ∷ call_sessions ∷ own.tables;
  indexes = ix_tool_calls ∷ ix_turns ∷ ix_from_number ∷ [];
}

upgrade-own : upgrade lists own ≡ ok upgraded
unfolding upgrade lists call_sessions transcript_turns tool_calls ix_from_number ix_turns
    ix_tool_calls
upgrade-own = refl

downgrade-upgrade_example : downgrade lists upgraded ≡ ok own
downgrade-upgrade_example = downgrade-upgrade lists lists-Drops own upgraded upgrade-own

upgrade-declare_example :
    upgrade lists own
    ≡ declare lists (call_session_model ∷ transcript_turn_model ∷ tool_call_model ∷ []) own
upgrade-declare_example = upgrade-declare lists own
