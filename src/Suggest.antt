-- ===== src/Suggest.antt =====
-- packages/core/src/suggest.ts: the known name that a typo most likely meant. A text is the list of
-- its UTF-16 units, which `length` and indexing count; `toLowerCase` is a parameter.
pub mod Reference
pub mod Exact
pub mod Nearest
use flowpanel.Base.{
  ℕ, suc, ◌+◌, ◌-◌, min, Bool, true, false, not, ◌||◌, ◌&&◌, eqb, ltb, Option, none, some, List, [],
  ◌∷◌, ◌++◌, length, keep, find, if◌then◌else◌,
}

abbrev pub Text : Type 0
Text = List ℕ

abbrev pub cost : ℕ → ℕ → ℕ
cost x y = if eqb x y then 0 else 1

-- The inner loop of `distance`, along the row before, whose entry of `j - 1` and the rest it is given;
-- `left` is the entry of `j - 1` in the new row. It answers the new entries and the least of all.
unfoldable pub fill_cells : ℕ → (diagonal : ℕ) → List ℕ → Text → (left best : ℕ) → List ℕ × ℕ
fill_cells x diagonal (up ∷ previous) (y ∷ b) left best =
    let step = min (min (diagonal + cost x y) (up + 1)) (left + 1) in
    let (cells, least) = fill_cells x up previous b step (if ltb step best then step else best) in
    (step ∷ cells, least)
fill_cells x diagonal previous b left best = ([], best)

-- A row, from its first entry.
unfoldable pub fill_row : ℕ → List ℕ → Text → ℕ → List ℕ × ℕ
unfolding fill_cells
fill_row x [] b i = (i ∷ [], i)
fill_row x (first ∷ previous) b i =
    let (cells, least) = fill_cells x first previous b i i in (i ∷ cells, least)

-- `previous[b.length]`, the last entry of a row.
unfoldable pub last : List ℕ → ℕ
last [] = 0
last (d ∷ []) = d
last (d ∷ (e ∷ row)) = last (e ∷ row)

-- The outer loop, at the unit `i - 1` of `a`.
unfoldable pub rows_from : (i : ℕ) → Text → Text → List ℕ → (limit : ℕ) → ℕ
unfolding fill_row last
rows_from i [] b previous limit = last previous
rows_from i (x ∷ a) b previous limit =
    let (row, best) = fill_row x previous b i in
    let later = rows_from (suc i) a b row limit in if ltb limit best then limit + 1 else later

-- `Array.from({ length: n + 1 }, (_, i) => i)`, from an index on.
unfoldable pub count_from : ℕ → Text → List ℕ
count_from i [] = i ∷ []
count_from i (y ∷ b) = i ∷ count_from (suc i) b

-- `distance`.
unfoldable pub distance : Text → Text → (limit : ℕ) → ℕ
unfolding rows_from count_from
distance a b limit =
    if ltb limit (length a - length b) || ltb limit (length b - length a)
    then limit + 1
    else rows_from 1 a b (count_from 0 b) limit

unfoldable pub same_text : Text → Text → Bool
same_text [] [] = true
same_text (x ∷ a) (y ∷ b) = eqb x y && same_text a b
same_text _ _ = false

-- `squash`.
unfoldable pub squash : (Text → Text) → Text → Text
squash lower value = keep (λ u. not (eqb u b'_' || eqb u b'-')) (lower value)

-- The loop of `near`.
unfoldable pub closest : Text → List Text → (best : Option Text) → (best_distance : ℕ) → Option Text
unfolding distance
closest target [] best best_distance = best
closest target (candidate ∷ known) best best_distance =
    let d = distance target candidate 2 in
    if ltb d best_distance
    then closest target known (some candidate) d
    else closest target known best best_distance

-- `near`.
unfoldable pub near : (Text → Text) → Text → List Text → Option Text
unfolding squash same_text closest
near lower target known =
    elim (find (λ candidate. same_text (squash lower candidate) (squash lower target)) known) [
      | some same ↦ some same
      | none ↦ closest target known none 3
    ]
