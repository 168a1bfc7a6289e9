-- ===== src/Realtime/Bodies.antt =====
-- The bodies of realtime messages read back.
use flowpanel.Base.{String, true, ◌≡◌, refl, some, ok, arith, ◌⊎◌}
use flowpanel.Base.Dict.{lookup}
use flowpanel.Base.Value.{Value, undefined, null, bool, num, str, arr, obj}
use flowpanel.Realtime.{
  Json, RoundTrips, is_json, encode_payload, decode_payload, encode_envelope, decode_envelope,
  frame, open_frame,
}

-- A payload that a transport carries unchanged: none, or one that JSON keeps.
abbrev pub Carried : Value → Type 0
Carried v = (v ≡ undefined) ⊎ (is_json v ≡ true)

open_frame-frame :
    (channel : String) (v : Value) → open_frame (some (frame channel v)) ≡ some (channel, v)
unfolding lookup
open_frame-frame channel undefined = refl
open_frame-frame channel null = refl
open_frame-frame channel _ = refl

frame-is_json : (channel : String) (v : Value) → Carried v → is_json (frame channel v) ≡ true
unfolding is_json
frame-is_json channel undefined h = refl
frame-is_json channel null h = refl
frame-is_json channel _ h = ground arith

module _ (j : Json) (r : RoundTrips j) where
  -- Whatever payload is sent over a transport arrives: decoding the body that was encoded for it
  -- gives it back, and no payload is told apart from every payload.
  pub decode_payload-encode_payload :
      (channel : String) (v : Value) (t : j.Text)
      → Carried v
      → encode_payload j channel v ≡ ok t
      → decode_payload j t ≡ v
  unfolding encode_payload decode_payload is_json
  decode_payload-encode_payload channel undefined t h e = ground (arith, r.empty_is)
  decode_payload-encode_payload channel null t h e =
      ground (arith, r.written null t, r.read_back null t)
  decode_payload-encode_payload channel (bool b) t h e =
      ground (arith, r.written (bool b) t, r.read_back (bool b) t)
  decode_payload-encode_payload channel (num n) t h e =
      ground (arith, r.written (num n) t, r.read_back (num n) t)
  decode_payload-encode_payload channel (str s) t h e =
      ground (arith, r.written (str s) t, r.read_back (str s) t)
  decode_payload-encode_payload channel (arr vs) t h e =
      ground (arith, r.written (arr vs) t, r.read_back (arr vs) t)
  decode_payload-encode_payload channel (obj ps) t h e =
      ground (arith, r.written (obj ps) t, r.read_back (obj ps) t)

  -- The frame of the event stream keeps the channel and the payload.
  pub decode_envelope-encode_envelope :
      (channel : String) (v : Value) (t : j.Text)
      → Carried v
      → encode_envelope j channel v ≡ ok t
      → decode_envelope j t ≡ some (channel, v)
  unfolding encode_envelope decode_envelope
  decode_envelope-encode_envelope channel v t h e =
      rw (r.read_back (frame channel v) t (frame-is_json channel v h) e)
        (open_frame-frame channel v)
