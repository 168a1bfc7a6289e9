-- ===== src/Base/Text.antt =====
-- Sets of texts as lists, with the tests of `Set.has` and `Array.prototype.includes`.
use Prim.Native.String.{String}
use mathlib.Core.Path.{◌≡◌, refl}
use mathlib.Core.Logic.{◌≢◌}
use mathlib.Core.Bool.{Bool, false, ◌&&◌, ◌||◌}
use mathlib.Core.List.{List, [], ◌∷◌, ◌++◌}
use native.Mathlib.Omega.{arith}
use text.Mathlib.Text.{◌==◌}
use text.Mathlib.TextEquality.{eq_iff}
use flowpanel.Base.Tests.{if◌then◌else◌}
use flowpanel.Base.Lists.{keep}

unfoldable pub contains : List String → String → Bool
contains [] k = false
contains (x ∷ xs) k = x == k || contains xs k

-- `set.add(k)`: insertion order, no duplicates.
unfoldable pub add : List String → String → List String
unfolding contains
add xs k = if contains xs k then xs else xs ++ k ∷ []

pub contains-append :
    (xs ys : List String) (k : String) → contains (xs ++ ys) k ≡ (contains xs k || contains ys k)
unfolding contains
contains-append [] ys k = refl
contains-append (x ∷ xs) ys k = ground (arith, contains-append xs ys k)

-- Membership in a filtered list, for a test that respects equality of texts.
pub contains-keep :
    (p : String → Bool) (xs : List String) (k : String)
    → contains (keep p xs) k ≡ (contains xs k && p k)
unfolding contains
contains-keep p [] k = refl
contains-keep p (x ∷ xs) k = ground (arith, eq_iff x k, contains-keep p xs k)

pub eq_of_ne : (a b : String) → a ≢ b → (a == b) ≡ false
eq_of_ne a b ne = ground (arith, eq_iff a b)
