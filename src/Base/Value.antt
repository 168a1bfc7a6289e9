-- ===== src/Base/Value.antt =====
-- The values of the source's dynamic data (`unknown`, `Record<string, unknown>`).
-- A number is its 64-bit pattern: the modelled code only passes numbers on, or compares them by
-- `Object.is`. Functions are no values here: a callback is a function argument of the model.
use Prim.Native.Nat.{ℕ}
use Prim.Native.String.{String}
use mathlib.Core.Bool.{Bool}
use mathlib.Core.Option.{Option}
use mathlib.Core.List.{List, [], ◌∷◌}

mutual
  pub data Value : Type 0 where
    undefined null : Value
    bool : Bool → Value
    num : ℕ → Value
    str : String → Value
    arr : Values → Value
    obj : Props → Value

  pub data Values : Type 0 where
    nil : Values
    cons : Value → Values → Values

  pub data Props : Type 0 where
    end : Props
    prop : String → Value → Props → Props

-- A row, a request body, a session.
abbrev pub Row : Type 0
Row = List (String × Value)

abbrev pub props : Props → Row
props end = []
props (prop k v ps) = (k, v) ∷ props ps

abbrev pub Session : Type 0
Session = Row

-- `Scope` is a record or `null`.
abbrev pub Scope : Type 0
Scope = Option Row
