-- ===== src/Tests/Controls.antt =====
-- Paginations and series at concrete inputs.
use flowpanel.Base.{
  ℕ, ◌+◌, ◌≤◌, true, ◌≡◌, refl, none, some, List, [], ◌∷◌, map, arith, ltb, or_else, if◌then◌else◌,
  ◌==◌,
}
use flowpanel.Base.Dict.{lookup}
use flowpanel.Base.Value.{Value, str, undefined, Row}
use flowpanel.Pagination.{Item, number, gap, page_items}
use flowpanel.Pagination.Control.{Runs, shows, page_items-Runs}
use flowpanel.Series.{Calendar, day_ms, fill_days}
use flowpanel.Series.Days.{days, days_between, added, fill_days_lem}

page_items-Runs_example :
    (rest : List Item) × (page_items 6 12 1 ≡ number 1 ∷ rest)
    × Runs 1 rest 12
    × ((k : ℕ) → 1 ≤ k → k ≤ 12 → 6 ≤ k + 1 → k ≤ 6 + 1 → shows (page_items 6 12 1) k ≡ true)
page_items-Runs_example = page_items-Runs 6 12 1 (omega arith) (omega arith)

-- The cases of Pagination.test.tsx.
page_items_middle :
    page_items 6 12 1 ≡ number 1 ∷ gap ∷ number 5 ∷ number 6 ∷ number 7 ∷ gap ∷ number 12 ∷ []
unfolding page_items
page_items_middle = refl

page_items_start :
    page_items 2 12 1 ≡ number 1 ∷ number 2 ∷ number 3 ∷ number 4 ∷ gap ∷ number 12 ∷ []
unfolding page_items
page_items_start = refl

-- Two days, over the natural numbers; a value counts its presence.
abbrev two_days : Calendar
two_days = record {
  Num = ℕ;
  nought = 0;
  plus = λ a b. a + b;
  finite = λ v. some 1;
  zone_day = λ t. if ltb t day_ms then "1970-01-01" else "1970-01-02";
  day_of = λ v. elim v [ str s ↦ some s | _ ↦ none ];
  midnight = λ s. if s == "1970-01-01" then 0 else day_ms;
  utc_day = λ t. if ltb t day_ms then "1970-01-01" else "1970-01-02";
}

abbrev date_of : Row → Value
date_of row = or_else (lookup "at" row) undefined

abbrev visits : List Row
visits =
    (("at", str "1970-01-02") ∷ [])
    ∷ (("at", str "1970-01-02") ∷ [])
    ∷ (("at", undefined) ∷ [])
    ∷ []

fill_days_lem_example :
    fill_days two_days 3 date_of date_of visits (5, day_ms + 7)
    ≡ some (
        map
          (λ cursor. (
            two_days.utc_day cursor,
            added two_days date_of date_of (two_days.utc_day cursor) 0 visits,
          ))
          (days (days_between 0 day_ms) 0))
fill_days_lem_example = fill_days_lem two_days date_of date_of visits 5 (day_ms + 7) 3 (omega arith)

two_visits :
    fill_days two_days 3 date_of date_of visits (5, day_ms + 7)
    ≡ some (("1970-01-01", 0) ∷ ("1970-01-02", 2) ∷ [])
unfolding fill_days
two_visits = refl
