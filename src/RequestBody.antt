-- ===== src/RequestBody.antt =====
-- packages/next/src/runtime/request-body.ts: size-limited bodies of write requests. A body is the
-- sequence of its chunks of bytes. `JSON`, form data, `TextDecoder`, `Number` and the tests on the
-- content type are the platform's: a parameter.
pub mod Limits
use flowpanel.Base.{
  ℕ, ◌+◌, String, Bool, true, false, ◌||◌, Option, none, some, List, [], ◌∷◌, ◌++◌, Result, ok, err,
  ◌>>=◌, ltb, length, or_else, if◌then◌else◌,
}
use flowpanel.Base.Dict.{insert}
use flowpanel.Base.Value.{Value, Row, obj, props}

abbrev pub max_write_body_bytes : ℕ
max_write_body_bytes = 1_048_576

-- `RequestBodyError`.
pub data BodyError : Type 0 where
  payload_too_large invalid_json object_required invalid_form : BodyError

abbrev pub Bytes : Type 0
Bytes = List ℕ

-- `declared_length` is the `content-length` as a finite number, where it is one.
pub record Request : Type 0 where
  pub declared_length : Option ℕ
  pub content_type : Option String
  pub body : Option (List Bytes)

pub record Platform : Type 0 where
  pub parse_json : Bytes → Option Value
  pub parse_form : String → Bytes → Option (List (String × Value))
  pub lower : String → String
  pub includes : String → String → Bool

-- `declaredBodyIsTooLarge`.
unfoldable pub declared_too_large : Request → Bool
declared_too_large req = elim req.declared_length [
  | none ↦ false
  | some n ↦ ltb max_write_body_bytes n
]

-- The loop of `readBody`: what is read so far, and how long it is.
unfoldable pub read_chunks : List Bytes → Bytes → ℕ → Result BodyError Bytes
read_chunks [] read_so_far size = ok read_so_far
read_chunks (chunk ∷ chunks) read_so_far size =
    let size' = size + length chunk in
    let rest = read_chunks chunks (read_so_far ++ chunk) size' in
    if ltb max_write_body_bytes size' then err payload_too_large else rest

-- `readBody`.
unfoldable pub read_body : Request → Result BodyError Bytes
unfolding declared_too_large read_chunks
read_body req =
    if declared_too_large req
    then err payload_too_large
    else elim req.body [ none ↦ ok [] | some chunks ↦ read_chunks chunks [] 0 ]

-- `isPlainObject`, of what `JSON.parse` makes: its objects are plain.
abbrev pub object_of : Option Value → Result BodyError Row
object_of none = err invalid_json
object_of (some (obj ps)) = ok (props ps)
object_of (some v) = err object_required

-- `readJsonObject`.
unfoldable pub read_json_object : Platform → Request → Result BodyError Row
unfolding read_body
read_json_object p req = do body ← read_body req; object_of (p.parse_json body)

-- `readRequestFormData`.
unfoldable pub read_form_data : Platform → Request → Result BodyError (List (String × Value))
unfolding read_body
read_form_data p req = do
  body ← read_body req
  elim (p.parse_form (or_else req.content_type "") body) [ none ↦ err invalid_form | some f ↦ ok f ]

-- `formDataObject`: the last entry of a name counts.
unfoldable pub form_data_object : List (String × Value) → Row → Row
unfolding insert
form_data_object [] value = value
form_data_object ((key, field) ∷ rest) value = form_data_object rest (insert key field value)

abbrev pub as_object : Result BodyError (List (String × Value)) → Result BodyError Row
as_object form = form >>= λ f. ok (form_data_object f [])

abbrev pub as_empty : Result BodyError Bytes → Result BodyError Row
as_empty body = body >>= λ _. ok []

-- `readActionObject`.
unfoldable pub read_action_object : Platform → Request → Result BodyError Row
unfolding read_body read_json_object read_form_data form_data_object
read_action_object p req =
    let content_type = p.lower (or_else req.content_type "") in
    if p.includes content_type "application/json"
    then read_json_object p req
    else if p.includes content_type "multipart/form-data"
        || p.includes content_type "application/x-www-form-urlencoded"
    then as_object (read_form_data p req)
    else as_empty (read_body req)

-- The status and the message of `requestBodyErrorResponse`.
unfoldable pub body_error_response : BodyError → ℕ × String
body_error_response payload_too_large = (413, "request body is too large")
body_error_response object_required = (400, "JSON body must be an object")
body_error_response invalid_form = (400, "invalid form data")
body_error_response invalid_json = (400, "invalid JSON body")
