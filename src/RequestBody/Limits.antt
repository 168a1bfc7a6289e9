-- ===== src/RequestBody/Limits.antt =====
-- Which bodies are read.
use flowpanel.Base.{
  ℕ, ◌+◌, ◌≤◌, ◌<◌, ◌≡◌, none, some, List, [], ◌∷◌, ◌++◌, ok, err, ltb, length, length-append,
  arith, if◌then◌else◌, Option-cases, Bool-cases, inl, inr, ◌||◌,
}
use mathlib.Core.List.{append_assoc, append-nil}
use flowpanel.RequestBody.{
  Request, Platform, payload_too_large, Bytes, max_write_body_bytes, declared_too_large,
  read_chunks, read_body, read_json_object, read_form_data, read_action_object,
}

-- The bytes that were sent.
abbrev pub joined : List Bytes → Bytes
joined [] = []
joined (chunk ∷ chunks) = chunk ++ joined chunks

abbrev pub sent : Request → Bytes
sent req = elim req.body [ none ↦ [] | some chunks ↦ joined chunks ]

read_chunks-joined :
    (chunks : List Bytes) (so_far : Bytes) (size : ℕ)
    → size ≤ max_write_body_bytes
    → read_chunks chunks so_far size ≡ (
        if ltb max_write_body_bytes (size + length (joined chunks))
        then err payload_too_large
        else ok (so_far ++ joined chunks))
unfolding read_chunks
read_chunks-joined [] so_far size small = ground (arith, append-nil so_far)
read_chunks-joined (chunk ∷ chunks) so_far size small =
    elim (Bool-cases (ltb max_write_body_bytes (size + length chunk))) [
      | inl over ↦ ground (arith, over, length-append chunk (joined chunks))
      | inr fits ↦ ground (
        arith,
        fits,
        length-append chunk (joined chunks),
        append_assoc so_far chunk (joined chunks),
        read_chunks-joined chunks (so_far ++ chunk) (size + length chunk) (ground (arith, fits)),
      )
    ]

-- A body is read whole exactly when neither its declared length nor what was sent is over the limit;
-- any other is refused as too large, and nothing else is.
pub read_body_lem :
    (req : Request)
    → read_body req ≡ (
        if declared_too_large req || ltb max_write_body_bytes (length (sent req))
        then err payload_too_large
        else ok (sent req))
unfolding read_body
read_body_lem req = elim (Option-cases req.body) [
  | inl no_body ↦ ground (arith, no_body)
  | inr (chunks, there) ↦ ground (arith, there, read_chunks-joined chunks [] 0 (omega arith))
]

read_body_over :
    (req : Request)
    → max_write_body_bytes < length (sent req)
    → read_body req ≡ err payload_too_large
read_body_over req over = ground (arith, read_body_lem req)

-- A body over the limit is refused as that by every reader, whatever its content type.
pub read_body-payload_too_large :
    (p : Platform) (req : Request)
    → max_write_body_bytes < length (sent req)
    → (read_json_object p req ≡ err payload_too_large)
      × (read_form_data p req ≡ err payload_too_large)
      × (read_action_object p req ≡ err payload_too_large)
unfolding read_json_object read_form_data read_action_object
read_body-payload_too_large p req over =
    let e = read_body_over req over in (ground (arith, e), ground (arith, e), ground (arith, e))
