-- ===== src/Policy/Writing.antt =====
-- Which inputs a write accepts, and what a refused one is told.
use flowpanel.Base.{String, true, ◌≡◌, some, List, [], ◌∷◌, ok, err, arith, ◌↔◌, All, find, not}
use flowpanel.Base.Text.{contains}
use flowpanel.Base.Dict.{lookup, keys}
use flowpanel.Base.Value.{Row}
use flowpanel.Errors.{known, unknown_field_error}
use flowpanel.Policy.{
  Policies, FieldWriteContext, assert_writable_input, check_declared, check_writable, access_allows,
  write_of,
}

abbrev pub MayWrite : Policies → FieldWriteContext → String → Type 0
MayWrite policies c k = access_allows (write_of (lookup k policies)) c.role c ≡ ok true

module _ (declared : List String) (policies : Policies) (c : FieldWriteContext) where
  check_declared_iff :
      (ks : List String)
      → (check_declared declared ks ≡ ok tt) ↔ All (λ k. contains declared k ≡ true) ks
  unfolding check_declared
  check_declared_iff [] = ground arith
  check_declared_iff (k ∷ ks) = ground (arith, check_declared_iff ks)

  check_writable_iff :
      (ks : List String) → (check_writable policies c ks ≡ ok tt) ↔ All (MayWrite policies c) ks
  unfolding check_writable
  check_writable_iff [] = ground arith
  check_writable_iff (k ∷ ks) = ground (arith, check_writable_iff ks)

  -- A write is accepted exactly when every submitted key is declared and its rule answers true for
  -- this caller; then the value is the input, with no key dropped or added.
  pub assert_writable_input_iff :
      (input v : Row)
      → (assert_writable_input declared policies input c ≡ ok v) ↔ (
          (v ≡ input)
          × All (λ k. contains declared k ≡ true) (keys input)
          × All (MayWrite policies c) (keys input))
  unfolding assert_writable_input
  assert_writable_input_iff input v =
      ground (arith, check_declared_iff (keys input), check_writable_iff (keys input))

  check_declared-find :
      (ks : List String) (k : String)
      → find (λ f. not (contains declared f)) ks ≡ some k
      → check_declared declared ks ≡ err (known (unknown_field_error k))
  unfolding check_declared
  check_declared-find [] k e = cc
  check_declared-find (f ∷ ks) k e = ground (arith, check_declared-find ks k)

  -- The first undeclared key is reported, whatever the rules of the other keys would have said or
  -- thrown: no rule decides before all keys are known.
  pub assert_writable_input-unknown :
      (input : Row) (k : String)
      → find (λ f. not (contains declared f)) (keys input) ≡ some k
      → assert_writable_input declared policies input c ≡ err (known (unknown_field_error k))
  unfolding assert_writable_input
  assert_writable_input-unknown input k e = ground (arith, check_declared-find (keys input) k e)
