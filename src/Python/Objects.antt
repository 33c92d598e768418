-- ===== src/Python/Objects.antt =====
-- Operations that Python's built-in types have: truth, `.get`, subscripts and `.strip`.
use Prim.Native.Char.{code}
use Prim.Native.String.{String, [], ◌∷◌}
use fastapi_claude_voice_age.Base.{zero, ◌<>◌, Bool, true, false, not, ◌&&◌, ◌==◌, if◌then◌else◌}
use fastapi_claude_voice_age.Base.Int.{pos}
use fastapi_claude_voice_age.Python.{
  Json, null, bool, int, float, str, arr, obj, nil, cons, Fields, end, attribute_error, type_error,
  other, Result, ok, raise, is_space,
}
use fastapi_claude_voice_age.Python.Numbers.{finite}

-- `bool(value)`
unfoldable pub truthy : Json → Bool
truthy null = false
truthy (bool b) = b
truthy (int (pos zero)) = false
truthy (int _) = true
truthy (float (finite sign zero e)) = false
truthy (float _) = true
truthy (str s) = not (s == "")
truthy (arr nil) = false
truthy (arr _) = true
truthy (obj end) = false
truthy (obj _) = true

-- `type(value).__name__`
unfoldable pub type_name : Json → String
type_name null = "NoneType"
type_name (bool b) = "bool"
type_name (int n) = "int"
type_name (float x) = "float"
type_name (str s) = "str"
type_name (arr vs) = "list"
type_name (obj d) = "dict"

-- The dict on which `.get` is called.
unfoldable pub dict_of : Json → Result Fields
unfolding type_name
dict_of (obj d) = ok d
dict_of v = raise (attribute_error ("'" <> (type_name v <> "' object has no attribute 'get'")))

-- `value[0]`. An IndexError and the KeyError of the number 0 are `other`.
unfoldable pub first_item : Json → Result Json
unfolding type_name
first_item (arr nil) = raise (other "list index out of range")
first_item (arr (cons v vs)) = ok v
first_item (str []) = raise (other "string index out of range")
first_item (str (c ∷ s)) = ok (str (c ∷ []))
first_item (obj d) = raise (other "0")
first_item v = raise (type_error ("'" <> (type_name v <> "' object is not subscriptable")))

unfoldable pub lstrip : String → String
unfolding is_space
lstrip [] = []
lstrip (c ∷ s) = let rest : String = lstrip s in if is_space (code c) then rest else c ∷ s

unfoldable pub rstrip : String → String
unfolding is_space
rstrip [] = []
rstrip (c ∷ s) =
    let rest : String = rstrip s in if is_space (code c) && rest == "" then [] else c ∷ rest

-- `value.strip()`
unfoldable pub strip : Json → Result String
unfolding lstrip rstrip type_name
strip (str s) = ok (rstrip (lstrip s))
strip v = raise (attribute_error ("'" <> (type_name v <> "' object has no attribute 'strip'")))
