-- ===== src/Routing/Matching.antt =====
-- A match against the path that its pattern describes.
use flowpanel.Base.{
  String, Bool, true, false, ◌≡◌, ◌≢◌, ◌∙◌, ap, ◌==◌, eq_iff, some, List, [], ◌∷◌, arith, All,
  Bool-cases, inl, inr,
}
use flowpanel.Base.Dict.{lookup, insert, lookup-insert, lookup-insert_self}
use flowpanel.Routing.{Segment, lit, param, Params, captured, match_from, match_route}

-- The path is the pattern, segment by segment, with the captured values in the place of the
-- parameters; no such value is empty.
abbrev pub Describes : List Segment → Params → List String → Type 0
Describes [] params [] = Unit
Describes (lit text ∷ segments) params (value ∷ route) =
    (text ≡ value) × Describes segments params route
Describes (param name ∷ segments) params (value ∷ route) =
    (lookup name params ≡ some value) × (value ≢ "") × Describes segments params route
Describes _ params _ = ⊥

abbrev pub IsUnused : String → List Segment → Type 0
IsUnused name segments = All (λ s. s ≢ param name) segments

abbrev pub HasDistinctNames : List Segment → Type 0
HasDistinctNames [] = Unit
HasDistinctNames (lit text ∷ segments) = HasDistinctNames segments
HasDistinctNames (param name ∷ segments) = IsUnused name segments × HasDistinctNames segments

match_from-bad :
    (segments : List Segment) (route : List String) (params out : Params)
    → match_from segments route params true ≢ captured out
unfolding match_from
match_from-bad [] [] params out e = cc
match_from-bad [] (_ ∷ _) params out e = cc
match_from-bad (s ∷ segments) [] params out e = cc
match_from-bad (lit text ∷ segments) (value ∷ route) params out e =
    ground (arith, match_from-bad segments route params out)
match_from-bad (param name ∷ segments) (value ∷ route) params out e =
    match_from-bad segments route _ out e

match_from-lookup :
    (segments : List Segment) (route : List String) (params out : Params) (bad : Bool) (k : String)
    → IsUnused k segments
    → match_from segments route params bad ≡ captured out
    → lookup k out ≡ lookup k params
unfolding match_from
match_from-lookup [] [] params out bad k u e = ground arith
match_from-lookup [] (_ ∷ _) params out bad k u e = cc
match_from-lookup (s ∷ segments) [] params out bad k u e = cc
match_from-lookup (lit text ∷ segments) (value ∷ route) params out bad k (_, u) e =
    match_from-lookup segments route params out bad k u (ground arith)
match_from-lookup (param name ∷ segments) (value ∷ route) params out bad k (ne, u) e =
    match_from-lookup segments route _ out _ k u e
    ∙ ground (
      arith,
      lookup-insert name k value params,
      eq_iff name k,
      λ (same : name ≡ k). ne (ap param same),
    )

match_from-Describes :
    (segments : List Segment) (route : List String) (params out : Params)
    → HasDistinctNames segments
    → match_from segments route params false ≡ captured out
    → Describes segments out route
unfolding match_from
match_from-Describes [] [] params out d e = tt
match_from-Describes [] (_ ∷ _) params out d e = cc
match_from-Describes (s ∷ segments) [] params out d e = cc
match_from-Describes (lit text ∷ segments) (value ∷ route) params out d e =
    ground (arith, eq_iff text value, match_from-Describes segments route params out d)
match_from-Describes (param name ∷ segments) (value ∷ route) params out (u, d) e =
    elim (Bool-cases (value == "")) [
      | inl empty ↦ absurd (match_from-bad segments route params out (rw empty at e))
      | inr full ↦
          let e' : match_from segments route (insert name value params) false ≡ captured out =
            rw full at e in
          (
            match_from-lookup segments route (insert name value params) out false name u e'
                ∙ lookup-insert_self name value params,
            λ same. cc (full, (eq_iff value "").1 same),
            match_from-Describes segments route (insert name value params) out d e',
          )
    ]

-- A path that a pattern with distinct names matches is the one that the pattern describes with the
-- captured parameters, and no captured value is empty.
pub match_route-Describes :
    (segments : List Segment) (route : List String) (out : Params)
    → HasDistinctNames segments
    → match_route segments route ≡ captured out
    → Describes segments out route
unfolding match_route
match_route-Describes segments route out d e = match_from-Describes segments route [] out d e
