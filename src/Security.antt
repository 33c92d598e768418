-- ===== src/Security.antt =====
-- app/security.py: the signature of Twilio's webhooks. `validator` is `validate` of Twilio's
-- `RequestValidator(auth_token)`.
pub mod Signature
mod Tests
use Prim.Native.Char.{code}
use Prim.Native.String.{String, [], ◌∷◌}
use fastapi_claude_voice_age.Base.{
  ℕ, Bool, true, false, not, ◌&&◌, eqb, ◌==◌, ◌<>◌, if◌then◌else◌, Option, none, some, List, [],
  ◌∷◌,
}
use fastapi_claude_voice_age.Settings.{Settings, is_empty, is_production}

-- `form` has the pairs of `multi_items`, `signature` the header X-Twilio-Signature.
pub record Request : Type 0 where
  pub path : String
  pub query : String
  pub signature : Option String
  pub form : List (String × String)

-- `passed` is a return, `refused` an HTTPException with its status and detail.
pub data Verdict : Type 0 where
  passed : Verdict
  refused : ℕ → String → Verdict

-- `s.rstrip("/")`
unfoldable pub rstrip_slash : String → String
rstrip_slash [] = []
rstrip_slash (c ∷ s) =
    let rest : String = rstrip_slash s in if eqb (code c) 47 && is_empty rest then [] else c ∷ rest

unfoldable pub public_url : Request → Settings → String
unfolding rstrip_slash
public_url request settings =
    rstrip_slash settings.public_base_url
    <> (request.path <> (if is_empty request.query then "" else "?" <> request.query))

-- `dict(pairs)`: the value of a key given twice is the last one, at the place of the first.
unfoldable pub dict_put : String → String → List (String × String) → List (String × String)
dict_put k v [] = (k, v) ∷ []
dict_put k v ((j, u) ∷ d) = if j == k then (j, v) ∷ d else (j, u) ∷ dict_put k v d

pub dict_from : List (String × String) → List (String × String) → List (String × String)
unfolding dict_put
dict_from d [] = d
dict_from d ((k, v) ∷ pairs) = dict_from (dict_put k v d) pairs

unfoldable pub header : Request → String
header request = elim request.signature [ some s ↦ s | none ↦ "" ]

module _
    (validator : (auth_token url : String)
      → List (String × String)
      → (signature : String) → Bool) where
  unfoldable pub is_signed : Request → Settings → Bool
  unfolding public_url dict_from header
  is_signed request settings =
      validator settings.twilio_auth_token (public_url request settings) (dict_from [] request.form)
        (header request)

  unfoldable pub validate_twilio_signature : Request → Settings → Verdict
  validate_twilio_signature request settings =
      if not settings.twilio_validate_signature
      then passed
      else if is_empty settings.twilio_auth_token
      then (if is_production settings
          then refused 500 "twilio signature validation not configured"
          else passed)
      else if is_empty (header request)
      then refused 403 "missing signature"
      else if not (is_signed request settings)
      then refused 403 "invalid signature"
      else passed
