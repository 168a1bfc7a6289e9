-- ===== src/Policy/Reading.antt =====
-- Which fields a caller gets to read.
use flowpanel.Base.{
  String, true, false, ◌≡◌, List, [], ◌∷◌, ok, arith, ◌↔◌, eq_iff, inl, inr, Result-cases,
}
use flowpanel.Base.Text.{contains}
use flowpanel.Base.Dict.{lookup}
use flowpanel.Policy.{
  AccessContext, Policies, filter_readable, access_allows, is_sensitive, read_of,
}

-- What the policy says of one field.
abbrev pub MayRead : Policies → AccessContext → String → Type 0
MayRead policies c k =
    (is_sensitive (lookup k policies) ≡ false)
    × (access_allows (read_of (lookup k policies)) c.role c ≡ ok true)

module _ (policies : Policies) (c : AccessContext) where
  -- A projection that is returned holds exactly the requested fields that the caller may read; no
  -- sensitive field is among them.
  pub filter_readable_iff :
      (fields out : List String) (k : String)
      → filter_readable fields policies c ≡ ok out
      → (contains out k ≡ true) ↔ ((contains fields k ≡ true) × MayRead policies c k)
  unfolding filter_readable contains
  filter_readable_iff [] out k e = ground arith
  filter_readable_iff (f ∷ fs) out k e = elim (Result-cases (filter_readable fs policies c)) [
    | inl (later, same) ↦ ground (arith, eq_iff f k, filter_readable_iff fs later k same)
    | inr (t, failed) ↦ ground (arith, failed)
  ]
