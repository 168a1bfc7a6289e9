-- ===== src/Pagination/Control.antt =====
-- What a pagination control shows.
use flowpanel.Base.{
  ℕ, zero, suc, ◌+◌, ◌-◌, ◌≤◌, ◌<◌, Bool, true, false, ◌||◌, ◌≡◌, refl, sym, ap, ◌∙◌, List, [], ◌∷◌,
  ◌++◌, leb, ltb, eqb, any, any-append, arith, Bool-cases, inl, inr,
}
use mathlib.Core.List.{append_assoc, append-nil}
use flowpanel.Pagination.{
  Item, number, gap, add_number, add_range, sorted_insert, sort, with_gaps, entries, window_start,
  window_end, page_items,
}

abbrev range : ℕ → ℕ → List ℕ
range zero start = []
range (suc count) start = start ∷ range count (start + 1)

add_range_lem :
    (count start : ℕ) (set : List ℕ)
    → ((k : ℕ) → start ≤ k → k < start + count → any (λ m. eqb m k) set ≡ false)
    → add_range count start set ≡ set ++ range count start
unfolding add_range add_number
add_range_lem zero start set new = sym (append-nil set)
add_range_lem (suc count) start set new =
    let unseen : any (λ m. eqb m start) set ≡ false = new start (omega arith) (omega arith) in
    let later : (k : ℕ)
        → start + 1 ≤ k
        → k < start + 1 + count
        → any (λ m. eqb m k) (set ++ start ∷ []) ≡ false =
      λ k a b.
        ground
          (arith, new k (omega arith) (omega arith), any-append (λ m. eqb m k) set (start ∷ [])) in
    rw unseen (
      add_range_lem count (start + 1) (set ++ start ∷ []) later
      ∙ append_assoc set (start ∷ []) (range count (start + 1)))

sorted_insert-range :
    (n count start : ℕ) → n < start → sorted_insert n (range count start) ≡ n ∷ range count start
unfolding sorted_insert
sorted_insert-range n zero start h = refl
sorted_insert-range n (suc count) start h = ground arith

sort-range : (count start : ℕ) → sort (range count start) ≡ range count start
unfolding sort
sort-range zero start = refl
sort-range (suc count) start =
    ap (sorted_insert start) (sort-range count (start + 1))
    ∙ sorted_insert-range start count (start + 1) (omega arith)

sorted_insert_last :
    (p count start : ℕ)
    → start + count ≤ p
    → sorted_insert p (range count start) ≡ range count start ++ p ∷ []
unfolding sorted_insert
sorted_insert_last p zero start h = refl
sorted_insert_last p (suc count) start h = ground (arith, sorted_insert_last p count (start + 1))

sorted_insert_first :
    (p count start : ℕ)
    → 1 < start
    → 1 < p
    → sorted_insert 1 (range count start ++ p ∷ []) ≡ 1 ∷ (range count start ++ p ∷ [])
unfolding sorted_insert
sorted_insert_first p zero start h k = ground arith
sorted_insert_first p (suc count) start h k = ground arith

-- The entries go on from `before` to `last`: each is the next number, or a gap stands before it, and
-- then it is not the next number.
abbrev pub Runs : ℕ → List Item → ℕ → Type 0
Runs before [] last = before ≡ last
Runs before (number n ∷ items) last = (n ≡ before + 1) × Runs n items last
Runs before (gap ∷ []) last = ⊥
Runs before (gap ∷ (gap ∷ items)) last = ⊥
Runs before (gap ∷ (number n ∷ items)) last = (before + 1 < n) × Runs n items last

with_gaps-Runs :
    (count start before p : ℕ)
    → before < start
    → before < p
    → start + count ≤ p
    → Runs before (with_gaps before (range count start ++ p ∷ [])) p
unfolding with_gaps
with_gaps-Runs zero start before p h k e = elim (Bool-cases (ltb 1 (p - before))) [
  | inl far ↦ rw far (ground arith, refl)
  | inr near ↦ rw near (ground arith, refl)
]
with_gaps-Runs (suc count) start before p h k e = elim (Bool-cases (ltb 1 (start - before))) [
  | inl far ↦ rw far (
    ground arith,
    with_gaps-Runs count (start + 1) start p (omega arith) (omega arith) (omega arith),
  )
  | inr near ↦ rw near (
    ground arith,
    with_gaps-Runs count (start + 1) start p (omega arith) (omega arith) (omega arith),
  )
]

-- The window lies inside the pages, with the first and the last left out.
window_bounds :
    (page pages siblings : ℕ)
    → page ≤ pages
    → 2 ≤ pages
    → (2 ≤ window_start page pages siblings)
      × (window_start page pages siblings ≤ pages)
      × (window_end page pages siblings + 1 ≤ pages)
unfolding window_start window_end
window_bounds page pages siblings h k = ground arith

window_fits :
    (start last pages : ℕ) → start ≤ pages → last + 1 ≤ pages → start + (suc last - start) ≤ pages
window_fits start last pages h k = omega arith

-- With more than one page, the entries are those of the first page, the window and the last page.
page_items-eq :
    (page pages siblings : ℕ)
    → page ≤ pages
    → 2 ≤ pages
    → page_items page pages siblings
      ≡ number 1
        ∷ with_gaps 1 (
            range
              (suc (window_end page pages siblings) - window_start page pages siblings)
              (window_start page pages siblings)
            ++ pages ∷ [])
unfolding page_items entries add_number sort
page_items-eq page pages siblings h k =
    let start = window_start page pages siblings in
    let last = window_end page pages siblings in
    let count = suc last - start in
    let bounds = window_bounds page pages siblings h k in
    let many : leb pages 1 ≡ false = ground arith in
    let pair : add_number (1 ∷ []) pages ≡ 1 ∷ pages ∷ [] = ground arith in
    let kept : add_range count start (1 ∷ pages ∷ []) ≡ 1 ∷ pages ∷ range count start =
      add_range_lem count start (1 ∷ pages ∷ []) (λ k a b. ground (arith, bounds)) in
    let sorted : sort (1 ∷ pages ∷ range count start) ≡ 1 ∷ (range count start ++ pages ∷ []) =
      rw
        (
          sort-range count start,
          sorted_insert_last pages count start (window_fits start last pages bounds.1 bounds.2),
          sorted_insert_first pages count start (omega (arith, bounds)) (omega arith),
        )
        refl in
    rw (many, pair, kept, sorted) refl

-- Whether a number is among the entries.
abbrev pub shows : List Item → ℕ → Bool
shows [] k = false
shows (number n ∷ items) k = eqb n k || shows items k
shows (gap ∷ items) k = shows items k

shows-with_gaps :
    (before : ℕ) (ns : List ℕ) (k : ℕ) → shows (with_gaps before ns) k ≡ any (λ m. eqb m k) ns
unfolding with_gaps
shows-with_gaps before [] k = refl
shows-with_gaps before (n ∷ ns) k = ground (arith, shows-with_gaps n ns k)

any-range :
    (count start k : ℕ)
    → start ≤ k
    → k < start + count
    → any (λ m. eqb m k) (range count start) ≡ true
any-range zero start k a b = absurd (omega arith)
any-range (suc count) start k a b = ground (arith, any-range count (start + 1) k)

window_reaches : (start last n : ℕ) → start ≤ n → n ≤ last → n < start + (suc last - start)
window_reaches start last n h k = omega arith

near_window :
    (page pages siblings n : ℕ)
    → 2 ≤ pages
    → 2 ≤ n
    → n + 1 ≤ pages
    → page ≤ n + siblings
    → n ≤ page + siblings
    → (window_start page pages siblings ≤ n) × (n ≤ window_end page pages siblings)
unfolding window_start window_end
near_window page pages siblings n k a b c d = ground arith

shows_near :
    (page pages siblings n : ℕ)
    → 2 ≤ pages
    → 1 ≤ n
    → n ≤ pages
    → page ≤ n + siblings
    → n ≤ page + siblings
    → shows
        (number 1
          ∷ with_gaps 1 (
              range
                (suc (window_end page pages siblings) - window_start page pages siblings)
                (window_start page pages siblings)
              ++ pages ∷ []))
        n
      ≡ true
shows_near page pages siblings n k a b c d =
    let start = window_start page pages siblings in
    let last = window_end page pages siblings in
    let count = suc last - start in
    let inner : 2 ≤ n → n + 1 ≤ pages → (start ≤ n) × (n ≤ last) =
      λ e f. near_window page pages siblings n k e f c d in
    elim (Bool-cases (ltb 1 n)) [
      | inr low ↦ ground arith
      | inl above ↦ elim (Bool-cases (ltb n pages)) [
        | inr top ↦ ground (
          arith,
          shows-with_gaps 1 (range count start ++ pages ∷ []) n,
          any-append (λ m. eqb m n) (range count start) (pages ∷ []),
        )
        | inl below ↦
            let (from, to) = inner (ground arith) (ground arith) in
            ground (
              arith,
              shows-with_gaps 1 (range count start ++ pages ∷ []) n,
              any-append (λ m. eqb m n) (range count start) (pages ∷ []),
              any-range count start n from (window_reaches start last n from to),
            )
      ]
    ]

-- Wherever the current page is and however wide its surroundings are, the entries of more than one page
-- begin with page 1 and end with the last page; they ascend, with a gap exactly where pages are left
-- out; and every page within `siblings` of the current one is among them.
pub page_items-Runs :
    (page pages siblings : ℕ)
    → page ≤ pages
    → 2 ≤ pages
    → (rest : List Item) × (page_items page pages siblings ≡ number 1 ∷ rest)
      × Runs 1 rest pages
      × ((k : ℕ)
          → 1 ≤ k
          → k ≤ pages
          → page ≤ k + siblings
          → k ≤ page + siblings
          → shows (page_items page pages siblings) k ≡ true)
page_items-Runs page pages siblings h k =
    let start = window_start page pages siblings in
    let last = window_end page pages siblings in
    let count = suc last - start in
    let bounds = window_bounds page pages siblings h k in
    let items = page_items-eq page pages siblings h k in
    (
      with_gaps 1 (range count start ++ pages ∷ []),
      items,
      with_gaps-Runs count start 1 pages (omega (arith, bounds)) (omega arith)
          (window_fits start last pages bounds.1 bounds.2),
      λ n a b c d. rw items (shows_near page pages siblings n k a b c d),
    )
