-- ===== src/Suggest/Reference.antt =====
-- The edit distance by recursion on both texts, and what it does at the ends of the texts.
use flowpanel.Base.{ℕ, suc, ◌+◌, min, ◌≡◌, refl, [], ◌∷◌, ◌++◌, length, length-append, arith}
use flowpanel.Suggest.{Text, cost}

unfoldable pub min3 : ℕ → ℕ → ℕ → ℕ
min3 a b c = min (min a b) c

min3-add : (a b c n : ℕ) → min3 a b c + n ≡ min3 (a + n) (b + n) (c + n)
unfolding min3
min3-add a b c n = omega arith

interchange : (a b c d : ℕ) → min (min a b) (min c d) ≡ min (min a c) (min b d)
interchange a b c d = omega arith

transpose :
    (a b c d e f g h i : ℕ)
    → min3 (min3 a b c) (min3 d e f) (min3 g h i) ≡ min3 (min3 a d g) (min3 b e h) (min3 c f i)
unfolding min3
transpose a b c d e f g h i =
    let inner = interchange (min a b) c (min d e) f in
    let first = interchange a b d e in
    let outer = interchange (min (min a d) (min b e)) (min c f) (min g h) i in
    let second = interchange (min a d) (min b e) g h in cc

-- Two steps at the ends of the texts, in the two orders.
swap :
    (a b c d e f g h i k l : ℕ)
    → min3
        (min3 (a + k) (b + 1) (c + 1) + l)
        (min3 (d + k) (e + 1) (f + 1) + 1)
        (min3 (g + k) (h + 1) (i + 1) + 1)
      ≡ min3
          (min3 (a + l) (d + 1) (g + 1) + k)
          (min3 (b + l) (e + 1) (h + 1) + 1)
          (min3 (c + l) (f + 1) (i + 1) + 1)
swap a b c d e f g h i k l =
    let left = min3-add (a + k) (b + 1) (c + 1) l in
    let up = min3-add (d + k) (e + 1) (f + 1) 1 in
    let down = min3-add (g + k) (h + 1) (i + 1) 1 in
    let left' = min3-add (a + l) (d + 1) (g + 1) k in
    let up' = min3-add (b + l) (e + 1) (h + 1) 1 in
    let down' = min3-add (c + l) (f + 1) (i + 1) 1 in
    let turned =
      transpose (a + k + l) (b + 1 + l) (c + 1 + l) (d + k + 1) (e + 1 + 1) (f + 1 + 1) (g + k + 1)
        (h + 1 + 1) (i + 1 + 1) in
    let s0 : a + k + l ≡ a + l + k = omega arith in
    let s1 : b + 1 + l ≡ b + l + 1 = omega arith in
    let s2 : c + 1 + l ≡ c + l + 1 = omega arith in
    let s3 : d + k + 1 ≡ d + 1 + k = omega arith in
    let s4 : g + k + 1 ≡ g + 1 + k = omega arith in cc

-- The least number of units that are removed, inserted or replaced to make the one text of the other.
unfoldable pub edits : Text → Text → ℕ
edits [] b = length b
edits (x ∷ a) [] = suc (length a)
edits (x ∷ a) (y ∷ b) = min (min (edits a b + cost x y) (edits a (y ∷ b) + 1)) (edits (x ∷ a) b + 1)

pub edits-nil : (a : Text) → edits a [] ≡ length a
unfolding edits
edits-nil [] = refl
edits-nil (x ∷ a) = refl

edge :
    (n m d e u v k l : ℕ)
    → u ≡ n
    → v ≡ m
    → m ≡ n + 1
    → e ≡ min (min (u + k) (d + 1)) (v + 1)
    → min (min (v + l) (e + 1)) (suc m + 1)
      ≡ min (min (suc n + k) (min (min (u + l) (d + 1)) (suc n + 1) + 1)) (suc m + 1)
edge n m d e u v k l here there longer step = omega arith

-- The recursion from the last units.
pub edits-snoc :
    (a b : Text) (x y : ℕ)
    → edits (a ++ x ∷ []) (b ++ y ∷ [])
      ≡ min3 (edits a b + cost x y) (edits a (b ++ y ∷ []) + 1) (edits (a ++ x ∷ []) b + 1)
unfolding edits min3
edits-snoc [] [] x y = omega arith
edits-snoc [] (y' ∷ b) x y = omega (arith, edits-snoc [] b x y, length-append b (y ∷ []))
edits-snoc (x' ∷ a) [] x y =
    edge (length a) (length (a ++ x ∷ [])) (edits a (y ∷ [])) (edits (a ++ x ∷ []) (y ∷ []))
      (edits a []) (edits (a ++ x ∷ []) []) (cost x y) (cost x' y) (edits-nil a)
      (edits-nil (a ++ x ∷ [])) (length-append a (x ∷ [])) (edits-snoc a [] x y)
edits-snoc (x' ∷ a) (y' ∷ b) x y =
    let below = edits-snoc a b x y in
    let left = edits-snoc a (y' ∷ b) x y in
    let up = edits-snoc (x' ∷ a) b x y in
    let both =
      swap (edits a b) (edits a (b ++ y ∷ [])) (edits (a ++ x ∷ []) b) (edits a (y' ∷ b))
        (edits a (y' ∷ (b ++ y ∷ []))) (edits (a ++ x ∷ []) (y' ∷ b)) (edits (x' ∷ a) b)
        (edits (x' ∷ a) (b ++ y ∷ [])) (edits (x' ∷ (a ++ x ∷ [])) b) (cost x y) (cost x' y') in
    cc
