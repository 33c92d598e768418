-- ===== src/App/Answers.antt =====
-- The answers that clients get.
use fastapi_claude_voice_age.Base.{
  ◌≡◌, refl, ap, ◌⊎◌, inl, inr, ℕ, String, Option, none, some, ◌==◌, eq_iff, Bool-cases, arith,
}
use fastapi_claude_voice_age.Base.Int.{pos}
use fastapi_claude_voice_age.Python.{Json, int, str, arr, obj, Exn, get, null, get_or}
use fastapi_claude_voice_age.App.{
  Response, error_body, http_exception_handler, validation_handler, unhandled_exception_handler,
  Outcome, responded, http_exception, invalid, failed, call_next, request_id_of, dispatch, respond,
}

abbrev pub under : String → Json → Json
under k (obj d) = get_or k d null
under k v = null

-- What a client reads at `body["error"][name]`.
abbrev pub error_field : String → Response → Json
error_field name a = under name (under "error" a.body)

-- The answer has the client's id, if it sent one that is not empty, or else the new one.
abbrev pub HasId : Option String → String → Response → Type 0
HasId header generated a =
    ((id : String) × (header ≡ some id) × (¬ (id ≡ "")) × (a.request_id ≡ some id))
    ⊎ ((header ≡ none) ⊎ (header ≡ some "")) × (a.request_id ≡ some generated)

-- The status, and the body has it again and this detail.
abbrev pub IsError : ℕ → Json → Response → Type 0
IsError status_code detail a =
    (a.status_code ≡ status_code)
    × (error_field "status" a ≡ int (pos status_code))
    × (error_field "detail" a ≡ detail)

-- What a request must be told, by what its handler did.
abbrev pub IsTold : Option String → String → Outcome → Response → Type 0
IsTold header generated (responded r) a =
    HasId header generated a × (a.status_code ≡ r.status_code) × (a.body ≡ r.body)
IsTold header generated (http_exception status_code detail) a =
    HasId header generated a × IsError status_code detail a
IsTold header generated (invalid errors) a =
    HasId header generated a
    × IsError 422 (str "validation_error") a
    × (error_field "errors" a ≡ arr errors)
IsTold header generated (failed e) a = (a.request_id ≡ none) × IsError 500 (str "internal_error") a

HasId-request_id_of :
    (header : Option String) (generated : String) (a : Response)
    → a.request_id ≡ some (request_id_of header generated)
    → HasId header generated a
unfolding request_id_of
HasId-request_id_of none generated a h = inr (inl refl, h)
HasId-request_id_of (some id) generated a h = elim (Bool-cases (id == "")) [
  | inl e ↦ inr (inr (ap some ((eq_iff id "").0 e)), ground (arith, h, e))
  | inr e ↦ inl (id, refl, λ f. ground (arith, e, f, eq_iff id ""), ground (arith, h, e))
]

dispatch-HasId :
    (header : Option String) (generated : String) (r : Response)
    → HasId header generated (record r { request_id = some (request_id_of header generated) })
dispatch-HasId header generated r =
    HasId-request_id_of header generated
      (record r { request_id = some (request_id_of header generated) }) refl

-- Each request is answered. An answer of a handler goes out as it is; an HTTP exception as its status
-- and detail, an invalid request as 422 with its errors, and any other exception as 500, which says
-- nothing of the exception. All answers but that last one carry an id: the one that the client sent, if
-- it is not empty, or else a new one.
pub respond-IsTold :
    (header : Option String) (generated : String) (o : Outcome)
    → IsTold header generated o (respond header generated o)
      × ((e e' : Exn) → respond header generated (failed e) ≡ respond header generated (failed e'))
unfolding respond dispatch call_next http_exception_handler validation_handler
    unhandled_exception_handler error_body get_or get
respond-IsTold header generated (responded r) =
    ((dispatch-HasId header generated r, refl, refl), λ e e'. refl)
respond-IsTold header generated (http_exception status_code detail) = (
  (dispatch-HasId header generated (http_exception_handler status_code detail), (refl, refl, refl)),
  λ e e'. refl,
)
respond-IsTold header generated (invalid errors) = (
  (dispatch-HasId header generated (validation_handler errors), (refl, refl, refl), refl),
  λ e e'. refl,
)
respond-IsTold header generated (failed e) = ((refl, (refl, refl, refl)), λ e e'. refl)
