-- ===== src/Tests/Bodies.antt =====
-- Request bodies at concrete requests.
use flowpanel.Base.{
  ℕ, zero, suc, length-append, ◌<◌, false, ◌≡◌, refl, ◌||◌, none, some, [], ◌∷◌, ok, err, ltb,
  length, arith, if◌then◌else◌,
}
use flowpanel.RequestBody.{
  Request, Platform, payload_too_large, Bytes, max_write_body_bytes, declared_too_large, read_body,
}
use flowpanel.RequestBody.Limits.{sent, read_body_lem}

abbrev two_chunks : Request
two_chunks = record {
  declared_length = some 3;
  content_type = none;
  body = some ((1 ∷ 2 ∷ []) ∷ (3 ∷ []) ∷ []);
}

read_body_lem_example : read_body two_chunks ≡ (
    if declared_too_large two_chunks || ltb max_write_body_bytes (length (sent two_chunks))
    then err payload_too_large
    else ok (1 ∷ 2 ∷ 3 ∷ []))
read_body_lem_example = read_body_lem two_chunks

zeros : ℕ → Bytes
zeros zero = []
zeros (suc n) = 0 ∷ zeros n

length-zeros : (n : ℕ) → length (zeros n) ≡ n
unfolding zeros
length-zeros zero = refl
length-zeros (suc n) = ground (arith, length-zeros n)

abbrev large : Request
large = record { declared_length = none; content_type = none; body = some (zeros 1_048_577 ∷ []) }

large_is_over : max_write_body_bytes < length (sent large)
large_is_over = omega (arith, length-append (zeros 1_048_577) [], length-zeros 1_048_577)

abbrev no_form : Platform
no_form = record {
  parse_json = λ _. none;
  parse_form = λ _ _. none;
  lower = λ s. s;
  includes = λ _ _. false;
}
