-- ===== src/RowActions/Differences.antt =====
-- The difference that the audit log is told about a row that an action has changed.
use flowpanel.Base.{
  String, Bool, not, ◌&&◌, ◌||◌, ◌≡◌, refl, sym, ◌⊎◌, inl, inr, Option, none, some, List, [], ◌∷◌,
  ◌++◌, eq_iff, arith, if◌then◌else◌,
}
use flowpanel.Base.Text.{contains, contains-append}
use flowpanel.Base.Dict.{lookup, insert, lookup-insert, keys}
use flowpanel.Base.Value.{Value, Row}
use flowpanel.Rows.Projection.{contains-unique}
use flowpanel.Writes.{get, Diff}
use flowpanel.RowActions.Outcome.{changes, all_keys, compute_shallow_diff}

module _ (is_same : Value → Value → Bool) (before after : Row) where
  -- The value of a row at a key that one of the rows has and at which they differ.
  abbrev pub changed_at : Row → String → Option Value
  changed_at shown k =
      if (contains (keys before) k || contains (keys after) k)
        && not (is_same (get k before) (get k after))
      then some (get k shown)
      else none

  lookup-changes :
      (shown : Row) (ks : List String) (out : Row) (k : String)
      → lookup k (changes is_same shown before after ks out) ≡ (
          if contains ks k && not (is_same (get k before) (get k after))
          then some (get k shown)
          else lookup k out)
  unfolding changes contains
  lookup-changes shown [] out k = refl
  lookup-changes shown (x ∷ ks) out k = ground (
    arith,
    lookup-changes shown ks
        (if is_same (get x before) (get x after) then out else insert x (get x shown) out) k,
    lookup-insert x k (get x shown) out,
    eq_iff x k,
  )

  lookup-all_keys :
      (shown : Row) (k : String)
      → lookup k (changes is_same shown before after (all_keys before after) [])
        ≡ changed_at shown k
  unfolding lookup all_keys
  lookup-all_keys shown k = ground (
    arith,
    lookup-changes shown (all_keys before after) [] k,
    contains-unique (keys before ++ keys after) k,
    contains-append (keys before) (keys after) k,
  )

  -- What is said of a difference, by the keys of the row after.
  Told : Row → Option Diff → Type 0
  Told new d =
      ((d ≡ none) × ((k : String) → changed_at after k ≡ none))
      ⊎ ((old new' : Row) × (d ≡ some (record { before = some old; after = some new' }))
          × ((k : String)
              → (lookup k old ≡ changed_at before k) × (lookup k new' ≡ changed_at after k)))

  abbrev difference_of : Row → Option Diff
  difference_of [] = none
  difference_of (first ∷ others) = some (record {
    before = some (changes is_same before before after (all_keys before after) []);
    after = some (first ∷ others);
  })

  told :
      (new : Row)
      → ((k : String) → lookup k new ≡ changed_at after k)
      → Told new (difference_of new)
  unfolding Told lookup
  told [] at = inl (refl, λ k. sym (at k))
  told (first ∷ others) at = inr (
    changes is_same before before after (all_keys before after) [],
    first ∷ others,
    refl,
    λ k. (lookup-all_keys before k, at k),
  )

  -- The difference of two rows holds exactly the keys at which they differ, each with its value in the
  -- row before and in the row after, and there is none only where they differ at no key.
  pub compute_shallow_diff-lookup :
      ((compute_shallow_diff is_same (some before) (some after) ≡ none)
        × ((k : String) → changed_at after k ≡ none))
      ⊎ ((old new : Row) × (compute_shallow_diff is_same (some before) (some after)
            ≡ some (record { before = some old; after = some new }))
          × ((k : String)
              → (lookup k old ≡ changed_at before k) × (lookup k new ≡ changed_at after k)))
  unfolding compute_shallow_diff Told
  compute_shallow_diff-lookup =
      told (changes is_same after before after (all_keys before after) []) (lookup-all_keys after)
