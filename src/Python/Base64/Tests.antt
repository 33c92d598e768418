-- ===== src/Python/Base64/Tests.antt =====
-- Samples of both directions: paddings, characters outside the alphabet, and an incomplete group.
use fastapi_claude_voice_age.Base.{◌≡◌, refl, [], ◌∷◌, map}
use fastapi_claude_voice_age.Python.{ok, raise, value_error, other}
use fastapi_claude_voice_age.Python.Base64.{b64encode, b64decode}

encoded :
    map b64encode
      ([] ∷ (0 ∷ []) ∷ (255 ∷ 254 ∷ []) ∷ (104 ∷ 105 ∷ 33 ∷ []) ∷ (104 ∷ 105 ∷ 33 ∷ 63 ∷ []) ∷ [])
    ≡ "" ∷ "AA==" ∷ "//4=" ∷ "aGkh" ∷ "aGkhPw==" ∷ []
unfolding b64encode
encoded = refl

samples_back :
    map b64decode
      ("" ∷ "AA==" ∷ "//4=" ∷ "aG\nk!h" ∷ "AA==aGkh" ∷ "AA" ∷ "A===" ∷ "A=A=A" ∷ "=aGkh" ∷ [])
    ≡ ok []
      ∷ ok (0 ∷ [])
      ∷ ok (255 ∷ 254 ∷ [])
      ∷ ok (104 ∷ 105 ∷ 33 ∷ [])
      ∷ ok (0 ∷ [])
      ∷ raise (other "binascii.Error")
      ∷ raise (other "binascii.Error")
      ∷ raise (other "binascii.Error")
      ∷ ok (104 ∷ 105 ∷ 33 ∷ [])
      ∷ []
unfolding b64decode
samples_back = refl

not_ascii :
    b64decode "é" ≡ raise (value_error "string argument should contain only ASCII characters")
unfolding b64decode
not_ascii = refl
