-- ===== src/Base/Dict.antt =====
-- Objects and maps keyed by texts, as association lists in insertion order.
use Prim.Native.String.{String}
use mathlib.Core.Path.{◌≡◌, refl, ◌∙◌}
use mathlib.Core.Bool.{false}
use mathlib.Core.Option.{Option, none, some}
use mathlib.Core.List.{List, [], ◌∷◌}
use native.Mathlib.Omega.{arith}
use text.Mathlib.Text.{◌==◌}
use text.Mathlib.TextEquality.{eq_iff}
use text.Mathlib.TextPositions.{eq_refl}
use flowpanel.Base.Tests.{if◌then◌else◌}

module _ {ℓ} {V : Type ℓ} where
  -- `map.get(key)`; the first entry of a key counts.
  unfoldable pub lookup : String → List (String × V) → Option V
  lookup key [] = none
  lookup key ((first, value) ∷ later) = if first == key then some value else lookup key later

  unfoldable pub keys : List (String × V) → List String
  keys [] = []
  keys ((first, value) ∷ later) = first ∷ keys later

  -- `map.delete(key)`.
  unfoldable pub remove : String → List (String × V) → List (String × V)
  remove key [] = []
  remove key ((first, value) ∷ later) =
      let others = remove key later in if first == key then others else (first, value) ∷ others

  -- `map.set(key, value)`: an existing key keeps its place.
  unfoldable pub insert : String → V → List (String × V) → List (String × V)
  insert key value [] = (key, value) ∷ []
  insert key value ((first, old) ∷ later) =
      let others = insert key value later in
      if first == key then (key, value) ∷ later else (first, old) ∷ others

  pub lookup-remove :
      (key other : String) (entries : List (String × V))
      → lookup other (remove key entries) ≡ (if key == other then none else lookup other entries)
  unfolding lookup remove
  lookup-remove key other [] = ground arith
  lookup-remove key other ((first, old) ∷ later) =
      ground (
        arith,
        lookup-remove key other later,
        eq_iff first key,
        eq_iff first other,
        eq_iff key other,
      )

  pub lookup-insert :
      (key other : String) (value : V) (entries : List (String × V))
      → lookup other (insert key value entries)
        ≡ (if key == other then some value else lookup other entries)
  unfolding lookup insert
  lookup-insert key other value [] = refl
  lookup-insert key other value ((first, old) ∷ later) = ground (
    arith,
    lookup-insert key other value later,
    eq_iff first key,
    eq_iff first other,
    eq_iff key other,
  )

  pub lookup-insert_self :
      (key : String) (value : V) (entries : List (String × V))
      → lookup key (insert key value entries) ≡ some value
  lookup-insert_self key value entries = lookup-insert key key value entries ∙ rw (eq_refl key) refl

  pub lookup-insert_ne :
      (key other : String) (value : V) (entries : List (String × V))
      → (key == other) ≡ false
      → lookup other (insert key value entries) ≡ lookup other entries
  lookup-insert_ne key other value entries ne = lookup-insert key other value entries ∙ rw ne
