-- ===== src/Series.antt =====
-- packages/core/src/runtime/series.ts: `previousRange` and `fillDays`. A time is its number of
-- milliseconds since 1970. What a time zone and `Date` make of times and texts are parameters, and so
-- are the numbers that are added up, which are floats.
pub mod Days
use flowpanel.Base.{
  ℕ, zero, suc, ◌+◌, ◌-◌, ◌*◌, String, Bool, true, false, ◌==◌, Option, none, some, List, [], ◌∷◌,
  leb, or_else, if◌then◌else◌, map,
}
use flowpanel.Base.Dict.{lookup, insert}
use flowpanel.Base.Value.{Value, Row}

abbrev pub day_ms : ℕ
day_ms = 86_400_000

-- `previousRange`, of a range that does not begin before its own length has passed.
unfoldable pub previous_range : ℕ × ℕ → ℕ × ℕ
previous_range (from, to) = (from - (to - from), from)

-- `Intl`, `Date` and `Number`: the day of a time in the time zone, the day of a value (`dayOf`), midnight
-- of a day in UTC, the day of a time in UTC, a value as a finite number, and the sum of two numbers.
pub record Calendar : Type 1 where
  pub Num : Type 0
  pub nought : Num
  pub plus : Num → Num → Num
  pub finite : Value → Option Num
  pub zone_day : ℕ → String
  pub day_of : Value → Option String
  pub midnight : String → ℕ
  pub utc_day : ℕ → String

module _ (calendar : Calendar) where
  open calendar use {Num, nought, plus, finite, zone_day, day_of, midnight, utc_day}

  -- The value of a row, 0 where it is not a finite number. A missing field is `undefined`.
  abbrev pub amount : (Row → Value) → Row → Num
  amount value_of row = or_else (finite (value_of row)) nought

  -- One round of the loop over the rows.
  unfoldable pub add_row :
      (Row → Value) → (Row → Value) → List (String × Num) → Row → List (String × Num)
  unfolding lookup insert
  add_row date_of value_of totals row = elim (day_of (date_of row)) [
    | none ↦ totals
    | some day ↦ insert day (plus (or_else (lookup day totals) nought) (amount value_of row)) totals
  ]

  unfoldable pub totals_of :
      (Row → Value) → (Row → Value) → List (String × Num) → List Row → List (String × Num)
  unfolding add_row
  totals_of date_of value_of totals [] = totals
  totals_of date_of value_of totals (row ∷ rows) =
      totals_of date_of value_of (add_row date_of value_of totals row) rows

  abbrev pub point : List (String × Num) → ℕ → String × Num
  unfolding lookup
  point totals cursor = (utc_day cursor, or_else (lookup (utc_day cursor) totals) nought)

  -- The loop over the days from `cursor` to `end`, with fuel; `none` means that the fuel ran out.
  unfoldable pub points : ℕ → List (String × Num) → ℕ → ℕ → Option (List (String × Num))
  unfolding point
  points zero totals cursor last = none
  points (suc fuel) totals cursor last =
      let later = points fuel totals (cursor + day_ms) last in
      if leb cursor last
      then (elim later [ none ↦ none | some ps ↦ some (point totals cursor ∷ ps) ])
      else some []

  -- `fillDays`.
  unfoldable pub fill_days :
      ℕ → (Row → Value) → (Row → Value) → List Row → ℕ × ℕ → Option (List (String × Num))
  unfolding points totals_of
  fill_days fuel date_of value_of rows (from, to) =
      points fuel (totals_of date_of value_of [] rows) (midnight (zone_day from))
        (midnight (zone_day to))
