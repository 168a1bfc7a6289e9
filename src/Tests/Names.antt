-- ===== src/Tests/Names.antt =====
-- Suggestions for a name that is not known.
use flowpanel.Base.{◌≡◌, refl, ◌⊎◌, ◌<◌, none, some, [], ◌∷◌, find, All}
use flowpanel.Suggest.{Text, distance, near}
use flowpanel.Suggest.Reference.{edits}
use flowpanel.Suggest.Exact.{IsBounded, distance-IsBounded}
use flowpanel.Suggest.Nearest.{IsClosest, is_same, near-IsClosest}

abbrev cart : Text
cart = b'c' ∷ b'a' ∷ b'r' ∷ b't' ∷ []

abbrev car : Text
car = b'c' ∷ b'a' ∷ b'r' ∷ []

abbrev order : Text
order = b'o' ∷ b'r' ∷ b'd' ∷ b'e' ∷ b'r' ∷ []

near-eq : near (λ t. t) cart (order ∷ (car ∷ [])) ≡ some car
unfolding near
near-eq = refl

distance-IsBounded_example : IsBounded 2 (edits cart car) (distance cart car 2)
distance-IsBounded_example = distance-IsBounded cart car 2

near-IsClosest_example :
    ((w : Text) × (find (is_same (λ t. t) cart) (order ∷ (car ∷ [])) ≡ some w)
      × (near (λ t. t) cart (order ∷ (car ∷ [])) ≡ some w))
    ⊎ ((find (is_same (λ t. t) cart) (order ∷ (car ∷ [])) ≡ none)
        × (((near (λ t. t) cart (order ∷ (car ∷ [])) ≡ none)
              × All (λ c. 2 < edits cart c) (order ∷ (car ∷ [])))
            ⊎ ((w : Text) × (near (λ t. t) cart (order ∷ (car ∷ [])) ≡ some w)
                × IsClosest cart (order ∷ (car ∷ [])) w)))
near-IsClosest_example = near-IsClosest (λ t. t) cart (order ∷ (car ∷ []))
