-- ===== src/Tools/Registry/Laws.antt =====
-- A registry answers every call with a dict, and calls the handler registered last under a name.
use fastapi_claude_voice_age.Base.{
  ◌≡◌, refl, String, some, [], ◌∷◌, arith, ◌==◌, eq_iff, if◌then◌else◌,
}
use fastapi_claude_voice_age.Python.{Fields, ok, get, str}
use fastapi_claude_voice_age.Tools.World.{World, Handler}
use fastapi_claude_voice_age.Tools.Registry.{
  ToolEntry, ToolRegistry, lookup, insert, register, caught, execute,
}

lookup-insert :
    (j k : String) (e : ToolEntry) (r : ToolRegistry)
    → lookup j (insert k e r) ≡ (if k == j then some e else lookup j r)
unfolding lookup insert
lookup-insert j k e [] = refl
lookup-insert j k e ((i, f) ∷ r) =
    ground (arith, eq_iff k j, eq_iff i k, eq_iff i j, lookup-insert j k e r)

pub execute-insert :
    (r : ToolRegistry) (name : String) (e : ToolEntry) (called : String) (args : Fields) (w : World)
    → execute (insert name e r) called args w
      ≡ (if name == called then caught (e.handler args w) else execute r called args w)
unfolding execute
execute-insert r name e called args w = ground (arith, lookup-insert called name e r)

-- If the specification has a text for its name, `register` returns; after that a call of this name
-- runs the new handler, an exception of which comes back as `{"error": str(exc)}`, and a call of any
-- other name does what it did before.
pub execute-register :
    (r : ToolRegistry) (name : String) (spec : Fields) (h : Handler)
    → get "name" spec ≡ some (str name)
    → (r' : ToolRegistry) × (register spec h r ≡ ok r')
      × ((called : String) (args : Fields) (w : World)
          → execute r' called args w
            ≡ (if name == called then caught (h args w) else execute r called args w))
unfolding execute register
execute-register r name spec h e =
    let entry : ToolEntry = record { spec = spec; handler = h } in
    (insert name entry r, ground arith, execute-insert r name entry)
