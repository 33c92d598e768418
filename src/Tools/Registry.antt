-- ===== src/Tools/Registry.antt =====
-- app/tools/registry.py: tool names mapped to specifications and handlers.
pub mod Laws
use fastapi_claude_voice_age.Base.{
  String, ◌<>◌, Option, none, some, List, [], ◌∷◌, map, ◌==◌, if◌then◌else◌,
}
use fastapi_claude_voice_age.Python.{
  Json, Fields, field, end, str, Result, ok, raise, ◌>>=◌, type_error, str_exn, item,
}
use fastapi_claude_voice_age.Tools.World.{World, Handler}

pub record ToolEntry : Type 0 where
  pub spec : Fields
  pub handler : Handler

-- `_tools`, a dict in insertion order
abbrev pub ToolRegistry : Type 0
ToolRegistry = List (String × ToolEntry)

unfoldable pub lookup : String → ToolRegistry → Option ToolEntry
lookup k [] = none
lookup k ((j, e) ∷ r) = if j == k then some e else lookup k r

-- `self._tools[name] = entry`: a known name keeps its place.
unfoldable pub insert : String → ToolEntry → ToolRegistry → ToolRegistry
insert k e [] = (k, e) ∷ []
insert k e ((j, f) ∷ r) = if j == k then (k, e) ∷ r else (j, f) ∷ insert k e r

-- A name that is no text is outside the model, and is refused here.
register_under : Json → Fields → Handler → ToolRegistry → Result ToolRegistry
unfolding insert
register_under (str name) spec h r = ok (insert name (record { spec = spec; handler = h }) r)
register_under _ spec h r = raise (type_error "tool name")

unfoldable pub register : Fields → Handler → ToolRegistry → Result ToolRegistry
unfolding register_under item
register spec h r = do name ← item "name" spec; register_under name spec h r

unfoldable pub tool_specs : ToolRegistry → List Fields
tool_specs = map (λ (_, e). e.spec)

-- `{"error": text}`
abbrev pub error_dict : String → Fields
error_dict text = field "error" (str text) end

-- `except Exception as exc: return {"error": str(exc)}`
pub caught : Result Fields × World → Fields × World
unfolding str_exn
caught (ok out, w) = (out, w)
caught (raise e, w) = (error_dict (str_exn e), w)

run_entry : Option ToolEntry → String → Fields → World → Fields × World
unfolding caught
run_entry none name args w = (error_dict ("unknown tool: " <> name), w)
run_entry (some e) name args w = caught (e.handler args w)

unfoldable pub execute : ToolRegistry → String → Fields → World → Fields × World
unfolding run_entry lookup
execute r name args w = run_entry (lookup name r) name args w
