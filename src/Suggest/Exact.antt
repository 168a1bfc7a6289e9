-- ===== src/Suggest/Exact.antt =====
-- The rows of `distance` hold edit distances of prefixes, and what is abandoned is too far.
use flowpanel.Base.{
  ℕ, suc, ◌+◌, ◌-◌, ◌≤◌, ◌<◌, min, ◌||◌, ltb, ◌≡◌, refl, sym, ap, subst, ◌∙◌, ◌⊎◌, inl, inr,
  Bool-cases, List, [], ◌∷◌, ◌++◌, length, length-append, All, All-map, arith, if◌then◌else◌,
}
use flowpanel.Suggest.{Text, cost, fill_cells, fill_row, last, rows_from, count_from, distance}
use flowpanel.Suggest.Reference.{edits, edits-nil, edits-snoc, min3}

-- The distances of `a` to the prefixes of a text that are longer than `pre`.
abbrev cells_of : Text → Text → Text → List ℕ
cells_of a pre [] = []
cells_of a pre (y ∷ b) = edits a (pre ++ y ∷ []) ∷ cells_of a (pre ++ y ∷ []) b

abbrev row_of : Text → Text → Text → List ℕ
row_of a pre b = edits a pre ∷ cells_of a pre b

append-nil : (a : Text) → a ++ [] ≡ a
append-nil [] = refl
append-nil (x ∷ a) = ap (λ l. x ∷ l) (append-nil a)

snoc-append : (a : Text) (x : ℕ) (b : Text) → (a ++ x ∷ []) ++ b ≡ a ++ x ∷ b
snoc-append [] x b = refl
snoc-append (y ∷ a) x b = ap (λ l. y ∷ l) (snoc-append a x b)

count_from-row_of : (pre b : Text) → count_from (length pre) b ≡ row_of [] pre b
unfolding count_from edits
count_from-row_of pre [] = refl
count_from-row_of pre (y ∷ b) =
    let longer : suc (length pre) ≡ length (pre ++ y ∷ []) =
      omega (arith, length-append pre (y ∷ [])) in
    ap (λ l. length pre ∷ l) (ap (λ i. count_from i b) longer ∙ count_from-row_of (pre ++ y ∷ []) b)

fill_cells-cells_of :
    (a : Text) (x : ℕ) (pre b : Text) (best : ℕ)
    → (fill_cells x (edits a pre) (cells_of a pre b) b (edits (a ++ x ∷ []) pre) best).0
      ≡ cells_of (a ++ x ∷ []) pre b
unfolding fill_cells min3
fill_cells-cells_of a x pre [] best = refl
fill_cells-cells_of a x pre (y ∷ b) best = rw (sym (edits-snoc a pre x y)) (
    ap (λ l. edits (a ++ x ∷ []) (pre ++ y ∷ []) ∷ l) (fill_cells-cells_of a x (pre ++ y ∷ []) b _))

fill_cells-least :
    (x diagonal : ℕ) (previous : List ℕ) (b : Text) (left best : ℕ)
    → ((fill_cells x diagonal previous b left best).1 ≤ best)
      × All
          (λ d. (fill_cells x diagonal previous b left best).1 ≤ d)
          (fill_cells x diagonal previous b left best).0
unfolding fill_cells
fill_cells-least x diagonal [] [] left best = (omega arith, tt)
fill_cells-least x diagonal [] (y ∷ b) left best = (omega arith, tt)
fill_cells-least x diagonal (up ∷ previous) [] left best = (omega arith, tt)
fill_cells-least x diagonal (up ∷ previous) (y ∷ b) left best =
    let step = min (min (diagonal + cost x y) (up + 1)) (left + 1) in
    let (below, cells) =
      fill_cells-least x up previous b step (if ltb step best then step else best) in
    (ground arith, (ground arith, cells))

-- No later row has an entry below the least of this one.
All-next :
    (m : ℕ) (a : Text) (x : ℕ) (pre b : Text)
    → All (λ d. m < d) (row_of a pre b)
    → m < edits (a ++ x ∷ []) pre
    → All (λ d. m < d) (cells_of (a ++ x ∷ []) pre b)
unfolding min3
All-next m a x pre [] above first = tt
All-next m a x pre (y ∷ b) above first =
    let step : m < edits (a ++ x ∷ []) (pre ++ y ∷ []) = omega (arith, edits-snoc a pre x y) in
    (step, All-next m a x (pre ++ y ∷ []) b above.1 step)

last-row_of : (a pre b : Text) → last (row_of a pre b) ≡ edits a (pre ++ b)
unfolding last
last-row_of a pre [] = ap (edits a) (sym (append-nil pre))
last-row_of a pre (y ∷ b) = last-row_of a (pre ++ y ∷ []) b ∙ ap (edits a) (snoc-append pre y b)

All-last : (m : ℕ) (a pre b : Text) → All (λ d. m < d) (row_of a pre b) → m < edits a (pre ++ b)
All-last m a pre [] above = subst (λ l. m < edits a l) (sym (append-nil pre)) above.0
All-last m a pre (y ∷ b) above =
    subst (λ l. m < edits a l) (snoc-append pre y b) (All-last m a (pre ++ y ∷ []) b above.1)

All-edits : (m : ℕ) (a rest b : Text) → All (λ d. m < d) (row_of a [] b) → m < edits (a ++ rest) b
All-edits m a [] b above = subst (λ l. m < edits l b) (sym (append-nil a)) (All-last m a [] b above)
All-edits m a (x ∷ rest) b above =
    let first : m < edits (a ++ x ∷ []) [] =
      omega (arith, above.0, edits-nil a, edits-nil (a ++ x ∷ []), length-append a (x ∷ [])) in
    subst (λ l. m < edits l b) (snoc-append a x rest)
      (All-edits m (a ++ x ∷ []) rest b (first, All-next m a x [] b above first))

-- What `distance` answers: the edit distance, or one more than the limit where it is further.
abbrev pub IsBounded : (limit exact answer : ℕ) → Type 0
IsBounded limit exact answer = (answer ≡ exact) ⊎ ((answer ≡ limit + 1) × (limit < exact))

row-eq :
    (a : Text) (x : ℕ) (b : Text)
    → (fill_row x (row_of a [] b) b (suc (length a))).0 ≡ row_of (a ++ x ∷ []) [] b
unfolding fill_row
row-eq a x b =
    let first : suc (length a) ≡ edits (a ++ x ∷ []) [] =
      omega (arith, edits-nil (a ++ x ∷ []), length-append a (x ∷ [])) in
    subst
      (λ i. i ∷ (fill_cells x (edits a []) (cells_of a [] b) b i i).0 ≡ row_of (a ++ x ∷ []) [] b)
      (sym first) (ap (λ l. edits (a ++ x ∷ []) [] ∷ l) (fill_cells-cells_of a x [] b _))

row-least :
    (a : Text) (x : ℕ) (b : Text)
    → All
        (λ d. (fill_row x (row_of a [] b) b (suc (length a))).1 ≤ d)
        (fill_row x (row_of a [] b) b (suc (length a))).0
unfolding fill_row
row-least a x b = fill_cells-least x (edits a []) (cells_of a [] b) b (suc (length a)) _

rows_from-IsBounded :
    (a rest b : Text) (limit : ℕ)
    → IsBounded limit
        (edits (a ++ rest) b)
        (rows_from (suc (length a)) rest b (row_of a [] b) limit)
unfolding rows_from
rows_from-IsBounded a [] b limit =
    inl (last-row_of a [] b ∙ ap (λ l. edits l b) (sym (append-nil a)))
rows_from-IsBounded a (x ∷ rest) b limit =
    elim (Bool-cases (ltb limit (fill_row x (row_of a [] b) b (suc (length a))).1)) [
      | inl far ↦ rw far (
          inr (
            refl,
            let above : limit < (fill_row x (row_of a [] b) b (suc (length a))).1 = ground arith in
                let limited = subst (All (λ d. limit < d)) (row-eq a x b) (
                  All-map (λ d least. omega (arith, above, least))
                    (fill_row x (row_of a [] b) b (suc (length a))).0 (row-least a x b)) in
                subst (λ l. limit < edits l b) (snoc-append a x rest)
                  (All-edits limit (a ++ x ∷ []) rest b limited),
          ))
      | inr near ↦ rw near (
          let longer : suc (length (a ++ x ∷ [])) ≡ suc (suc (length a)) =
            omega (arith, length-append a (x ∷ [])) in
          let row = (fill_row x (row_of a [] b) b (suc (length a))).0 in
          subst
            (λ l. IsBounded limit (edits l b) (rows_from (suc (suc (length a))) rest b row limit))
            (snoc-append a x rest)
            (subst
              (λ i.
                IsBounded limit (edits ((a ++ x ∷ []) ++ rest) b) (rows_from i rest b row limit))
              longer
              (subst
                (λ r.
                  IsBounded limit (edits ((a ++ x ∷ []) ++ rest) b)
                    (rows_from (suc (length (a ++ x ∷ []))) rest b r limit))
                (sym (row-eq a x b)) (rows_from-IsBounded (a ++ x ∷ []) rest b limit))))
    ]

edits-length : (a b : Text) → (length a ≤ edits a b + length b) × (length b ≤ edits a b + length a)
unfolding edits
edits-length [] b = (omega arith, omega arith)
edits-length (x ∷ a) [] = (omega arith, omega arith)
edits-length (x ∷ a) (y ∷ b) =
    let both = edits-length a b in
    let removed = edits-length a (y ∷ b) in
    let added = edits-length (x ∷ a) b in (omega arith, omega arith)

-- `distance` is the edit distance of the texts where this is within the limit; where it is further,
-- the answer is it as well, or one more than the limit.
pub distance-IsBounded : (a b : Text) (limit : ℕ) → IsBounded limit (edits a b) (distance a b limit)
unfolding distance
distance-IsBounded a b limit =
    elim (Bool-cases (ltb limit (length a - length b) || ltb limit (length b - length a))) [
      | inl far ↦ rw far (inr (refl, ground (arith, edits-length a b)))
      | inr near ↦ rw near (
          subst (λ row. IsBounded limit (edits a b) (rows_from 1 a b row limit))
            (sym (count_from-row_of [] b)) (rows_from-IsBounded [] a b limit))
    ]
