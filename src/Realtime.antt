-- ===== src/Realtime.antt =====
-- packages/core/src/runtime/envelope.ts and runtime/publish.ts: the bodies that travel over a
-- transport and the publisher in memory.
-- `JSON` and the texts it makes are not of this repository: a parameter.
pub mod Bodies
pub mod Memory
pub mod Redis
use flowpanel.Base.{
  ℕ, ◌%◌, ◌/◌, ◌≡◌, String, Bool, true, false, not, ◌&&◌, ◌==◌, Option, none, some, List, [], ◌∷◌,
  Result, ok, err, eqb, if◌then◌else◌,
}
use Prim.Native.String.{◌++◌ as append}
use flowpanel.Base.Value.{
  Value, Values, Props, undefined, null, bool, num, str, arr, obj, nil, cons, end, prop, props,
}
use flowpanel.Base.Dict.{lookup}
use flowpanel.Errors.{Throws, Thrown, new_error}

-- A number that JSON keeps: finite, and not the negative zero, which it writes as 0.
abbrev pub is_json_num : ℕ → Bool
is_json_num n =
    not (eqb ((n / 0x10_0000_0000_0000) % 0x800) 0x7ff) && not (eqb n 0x8000_0000_0000_0000)

-- The values that JSON keeps as they are.
unfoldable mutual
  pub is_json : Value → Bool
  is_json undefined = false
  is_json null = true
  is_json (bool b) = true
  is_json (num n) = is_json_num n
  is_json (str s) = true
  is_json (arr vs) = are_json vs
  is_json (obj ps) = have_json ps

  pub are_json : Values → Bool
  are_json nil = true
  are_json (cons v vs) = is_json v && are_json vs

  pub have_json : Props → Bool
  have_json end = true
  have_json (prop k v ps) = is_json v && have_json ps

-- `JSON.stringify` and `JSON.parse`, over the texts. `stringify` throws on what it cannot write;
-- `parse` has no result where it throws.
pub record Json : Type 1 where
  pub Text : Type 0
  pub empty : Text
  pub is_empty : Text → Bool
  pub stringify : Value → Result String Text
  pub parse : Text → Option Value
  pub of_text : Text → Value

-- What is documented of them: what is written is not the empty text and is read back.
pub record RoundTrips (j : Json) : Type 0 where
  pub empty_is : j.is_empty j.empty ≡ true
  pub written : (v : Value) (t : j.Text) → j.stringify v ≡ ok t → j.is_empty t ≡ false
  pub read_back :
      (v : Value) (t : j.Text) → is_json v ≡ true → j.stringify v ≡ ok t → j.parse t ≡ some v

abbrev pub is_undefined : Value → Bool
is_undefined undefined = true
is_undefined _ = false

-- The object `{ channel, payload }`; a payload that is `undefined` is left out.
abbrev frame : String → Value → Value
frame channel payload =
    if is_undefined payload
    then obj (prop "channel" (str channel) end)
    else obj (prop "channel" (str channel) (prop "payload" payload end))

-- `frame.payload`.
abbrev payload_of : Option Value → Value
payload_of none = undefined
payload_of (some v) = v

abbrev framed : Option Value → Value → Option (String × Value)
framed (some (str channel)) payload = some (channel, payload)
framed _ payload = none

abbrev open_frame : Option Value → Option (String × Value)
open_frame (some (obj ps)) =
    framed (lookup "channel" (props ps)) (payload_of (lookup "payload" (props ps)))
open_frame _ = none

module _ (j : Json) where
  -- `encodeEnvelope`. What `stringify` throws goes through.
  unfoldable pub encode_envelope : String → Value → Result String j.Text
  encode_envelope channel payload = j.stringify (frame channel payload)

  -- `decodeEnvelope`.
  unfoldable pub decode_envelope : j.Text → Option (String × Value)
  unfolding lookup
  decode_envelope raw = open_frame (j.parse raw)

  abbrev rewrap : String → Result String j.Text → Throws j.Text
  rewrap channel (ok t) = ok t
  rewrap channel (err message) = err (
      new_error (
        append "[flowpanel] realtime payload for channel \""
          (append channel (append "\" is not JSON-serializable: " message))))

  -- `encodePayload`.
  unfoldable pub encode_payload : String → Value → Throws j.Text
  encode_payload channel payload =
      if is_undefined payload then ok j.empty else rewrap channel (j.stringify payload)

  -- `decodePayload`.
  unfoldable pub decode_payload : j.Text → Value
  decode_payload raw =
      if j.is_empty raw then undefined else elim (j.parse raw) [ none ↦ j.of_text raw | some v ↦ v ]
