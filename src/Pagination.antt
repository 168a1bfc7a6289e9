-- ===== src/Pagination.antt =====
-- `pageItems` of packages/react/src/_data/PaginationDefault.tsx: the entries of a pagination control. Page
-- numbers and `siblings` are natural; a difference that would be negative is only compared with 2, or
-- is the smaller argument of `Math.max(2, …)`.
pub mod Control
use flowpanel.Base.{
  ℕ, zero, suc, ◌+◌, ◌-◌, ◌*◌, Bool, true, false, List, [], ◌∷◌, ◌++◌, leb, ltb, eqb, any, min, max,
  if◌then◌else◌,
}

pub data Item : Type 0 where
  number : ℕ → Item
  gap : Item

-- `set.add(n)`.
unfoldable pub add_number : List ℕ → ℕ → List ℕ
add_number set n = if any (λ m. eqb m n) set then set else set ++ n ∷ []

-- `for (let i = start; …; i++) keep.add(i)`, for `count` rounds.
unfoldable pub add_range : ℕ → ℕ → List ℕ → List ℕ
unfolding add_number
add_range zero start set = set
add_range (suc count) start set = add_range count (start + 1) (add_number set start)

-- `sort((a, b) => a - b)`.
unfoldable pub sorted_insert : ℕ → List ℕ → List ℕ
sorted_insert n [] = n ∷ []
sorted_insert n (m ∷ ms) =
    let later = sorted_insert n ms in if leb n m then n ∷ m ∷ ms else m ∷ later

unfoldable pub sort : List ℕ → List ℕ
unfolding sorted_insert
sort [] = []
sort (n ∷ ns) = sorted_insert n (sort ns)

-- The last loop, behind the entry `before`.
unfoldable pub with_gaps : ℕ → List ℕ → List Item
with_gaps before [] = []
with_gaps before (n ∷ ns) =
    let later = with_gaps n ns in
    if ltb 1 (n - before) then gap ∷ number n ∷ later else number n ∷ later

unfoldable pub entries : List ℕ → List Item
unfolding with_gaps
entries [] = []
entries (n ∷ ns) = number n ∷ with_gaps n ns

-- `start` and `end`.
unfoldable pub window_start : ℕ → ℕ → ℕ → ℕ
window_start page pages siblings =
    if leb (pages - 1) (page + siblings)
    then max 2 (pages - (siblings * 2 + 1))
    else max 2 (page - siblings)

unfoldable pub window_end : ℕ → ℕ → ℕ → ℕ
window_end page pages siblings =
    if leb page (siblings + 2)
    then min (pages - 1) (siblings * 2 + 1 + 1)
    else min (pages - 1) (page + siblings)

unfoldable pub page_items : ℕ → ℕ → ℕ → List Item
unfolding add_range add_number sort entries window_start window_end
page_items page pages siblings =
    if leb pages 1
    then (if eqb pages 1 then number 1 ∷ [] else [])
    else (let start = window_start page pages siblings in
        let last = window_end page pages siblings in
        entries (sort (add_range (suc last - start) start (add_number (1 ∷ []) pages))))
