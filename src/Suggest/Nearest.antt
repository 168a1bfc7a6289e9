-- ===== src/Suggest/Nearest.antt =====
-- The name that `near` answers: one that is the same but for case and separators, else the closest.
use flowpanel.Base.{
  ℕ, ◌≤◌, ◌<◌, Bool, true, false, ltb, ◌≡◌, refl, ◌⊎◌, inl, inr, Bool-cases, Option, none, some,
  Option-cases, List, [], ◌∷◌, find, All, All-map, arith,
}
use flowpanel.Suggest.{Text, distance, same_text, squash, closest, near}
use flowpanel.Suggest.Reference.{edits}
use flowpanel.Suggest.Exact.{IsBounded, distance-IsBounded}

abbrev pub Among : Text → List Text → Type 0
Among w [] = ⊥
Among w (c ∷ known) = (w ≡ c) ⊎ Among w known

-- A known text within two edits, to which no other is closer.
pub record IsClosest (target : Text) (known : List Text) (w : Text) : Type 0 where
  pub within : edits target w ≤ 2
  pub among : Among w known
  pub least : All (λ c. edits target w ≤ edits target c) known

-- The loop keeps what it has, or takes a text that is closer.
Picks : Text → List Text → Option Text → ℕ → Option Text → Type 0
Picks target known best bound r =
    ((r ≡ best) × All (λ c. bound ≤ edits target c) known)
    ⊎ ((w : Text) × (r ≡ some w) × (edits target w < bound) × IsClosest target known w)

nearer :
    (exact answer bound : ℕ)
    → bound ≤ 3
    → IsBounded 2 exact answer
    → ltb answer bound ≡ true
    → (answer ≡ exact) × (exact < bound)
nearer exact answer bound small (inl same) less = ground arith
nearer exact answer bound small (inr (over, far)) less = ground arith

no_nearer :
    (exact answer bound : ℕ)
    → bound ≤ 3
    → IsBounded 2 exact answer
    → ltb answer bound ≡ false
    → bound ≤ exact
no_nearer exact answer bound small (inl same) more = ground arith
no_nearer exact answer bound small (inr (over, far)) more = ground arith

closest-Picks :
    (target : Text) (known : List Text) (best : Option Text) (bound : ℕ)
    → bound ≤ 3
    → Picks target known best bound (closest target known best bound)
unfolding closest Picks
closest-Picks target [] best bound small = inl (refl, tt)
closest-Picks target (c ∷ known) best bound small =
    elim (Bool-cases (ltb (distance target c 2) bound)) [
      | inl less ↦
          let (exact, closer) =
            nearer (edits target c) (distance target c 2) bound small
              (distance-IsBounded target c 2) less in
          let later : Picks target known (some c) (distance target c 2)
              (closest target known (some c) (distance target c 2)) =
            closest-Picks target known (some c) (distance target c 2) (omega arith) in
          rw less (elim later [
            | inl (kept, further) ↦ inr (
              c,
              kept,
              closer,
              record {
                within = omega arith;
                among = inl refl;
                least = (omega arith, All-map (λ d more. omega arith) known further);
              },
            )
            | inr (w, taken, under, best') ↦ inr (
              w,
              taken,
              omega arith,
              record {
                within = best'.within;
                among = inr best'.among;
                least = (omega arith, best'.least);
              },
            )
          ])
      | inr more ↦
          let further =
            no_nearer (edits target c) (distance target c 2) bound small
              (distance-IsBounded target c 2) more in
          rw more (elim (closest-Picks target known best bound small) [
            | inl (kept, all_further) ↦ inl (kept, (further, all_further))
            | inr (w, taken, under, best') ↦ inr (
              w,
              taken,
              under,
              record {
                within = best'.within;
                among = inr best'.among;
                least = (omega arith, best'.least);
              },
            )
          ])
    ]

-- The test of `near` for one text.
abbrev pub is_same : (Text → Text) → Text → Text → Bool
unfolding squash same_text
is_same lower target candidate = same_text (squash lower candidate) (squash lower target)

-- `near` answers the first known text that is the same but for case and separators; where there is
-- none, it answers a known text within two edits to which no other is closer, and nothing only where
-- every known text is further than two edits.
pub near-IsClosest :
    (lower : Text → Text) (target : Text) (known : List Text)
    → ((w : Text) × (find (is_same lower target) known ≡ some w)
        × (near lower target known ≡ some w))
      ⊎ ((find (is_same lower target) known ≡ none)
          × (((near lower target known ≡ none) × All (λ c. 2 < edits target c) known)
              ⊎ ((w : Text) × (near lower target known ≡ some w) × IsClosest target known w)))
unfolding near is_same Picks
near-IsClosest lower target known = elim (Option-cases (find (is_same lower target) known)) [
  | inr (w, there) ↦ inl (w, there, rw (there, near) refl)
  | inl absent ↦ inr (
    absent,
    rw (absent, near)
        (elim (closest-Picks target known none 3 (omega arith)) [
          | inl (kept, further) ↦ inl (kept, All-map (λ c more. omega arith) known further)
          | inr (w, taken, under, best) ↦ inr (w, taken, best)
        ]),
  )
]
