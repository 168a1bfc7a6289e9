-- ===== src/Series/Days.antt =====
-- The loop of `fillDays` ends, and what it yields for each day.
use flowpanel.Base.{
  ℕ, zero, suc, ◌+◌, ◌-◌, ◌/◌, ◌<◌, String, true, ◌==◌, eq_iff, none, some, List, [], ◌∷◌, leb, ◌≡◌,
  refl, ap, ap₂, ◌∙◌, or_else, if◌then◌else◌, map, arith, inl, inr, Option-cases,
}
use flowpanel.Base.Dict.{lookup, insert, lookup-insert}
use flowpanel.Base.Value.{Value, Row}
use flowpanel.Series.{Calendar, day_ms, amount, add_row, totals_of, point, points, fill_days}

-- `n` midnights, a day apart.
abbrev pub days : ℕ → ℕ → List ℕ
days zero cursor = []
days (suc n) cursor = cursor ∷ days n (cursor + day_ms)

-- How many midnights from `cursor` on are not after `last`.
abbrev pub days_between : ℕ → ℕ → ℕ
days_between cursor last = if leb cursor last then suc ((last - cursor) / day_ms) else 0

days_between-next :
    (cursor last n : ℕ) → days_between cursor last ≡ suc n → days_between (cursor + day_ms) last ≡ n
days_between-next cursor last n e = ground arith

module _ (calendar : Calendar) where
  open calendar use {Num, nought, plus, finite, zone_day, day_of, midnight, utc_day}

  points_lem :
      (n fuel : ℕ) (totals : List (String × Num)) (cursor last : ℕ)
      → days_between cursor last ≡ n
      → n < fuel
      → points calendar fuel totals cursor last ≡ some (map (point calendar totals) (days n cursor))
  unfolding points
  points_lem n zero totals cursor last e h = absurd (omega arith)
  points_lem zero (suc fuel) totals cursor last e h = ground arith
  points_lem (suc n) (suc fuel) totals cursor last e h =
      let there : leb cursor last ≡ true = ground arith in
      let left : days_between (cursor + day_ms) last ≡ n = days_between-next cursor last n e in
      rw there (rw (points_lem n fuel totals (cursor + day_ms) last left (omega arith)) refl)

  -- The amounts of the rows of a day, added up in their order.
  abbrev pub added : (Row → Value) → (Row → Value) → String → Num → List Row → Num
  added date_of value_of day acc [] = acc
  added date_of value_of day acc (row ∷ rows) =
      added date_of value_of day
        (elim (day_of (date_of row)) [
          | none ↦ acc
          | some d ↦ if d == day then plus acc (amount calendar value_of row) else acc
        ])
        rows

  totals_of-lookup :
      (date_of value_of : Row → Value) (rows : List Row) (totals : List (String × Num))
      (day : String)
      → or_else (lookup day (totals_of calendar date_of value_of totals rows)) nought
        ≡ added date_of value_of day (or_else (lookup day totals) nought) rows
  unfolding totals_of add_row
  totals_of-lookup date_of value_of [] totals day = refl
  totals_of-lookup date_of value_of (row ∷ rows) totals day =
      elim (Option-cases (day_of (date_of row))) [
        | inl absent ↦ rw (absent, add_row) (totals_of-lookup date_of value_of rows totals day)
        | inr (d, there) ↦
            let sum = plus (or_else (lookup d totals) nought) (amount calendar value_of row) in
            rw (there, add_row)
              (totals_of-lookup date_of value_of rows (insert d sum totals) day
                ∙ ap (λ acc. added date_of value_of day acc rows)
                    (ground (arith, eq_iff d day, lookup-insert d day sum totals)))
      ]

  map-points :
      (date_of value_of : Row → Value) (rows : List Row) (cursors : List ℕ)
      → map (point calendar (totals_of calendar date_of value_of [] rows)) cursors
        ≡ map
            (λ cursor. (utc_day cursor, added date_of value_of (utc_day cursor) nought rows))
            cursors
  unfolding lookup
  map-points date_of value_of rows [] = refl
  map-points date_of value_of rows (cursor ∷ cursors) =
      ap₂ (λ v ps. (utc_day cursor, v) ∷ ps)
        (totals_of-lookup date_of value_of rows [] (utc_day cursor))
        (map-points date_of value_of rows cursors)

  -- Given a round for each day of the range and one more, the loop of `fillDays` ends, and the series has a point for each midnight
  -- from the first day of the range to the last, a day apart: its date, with the amounts of the rows of
  -- that date added up in their order from 0, or 0 where there is none.
  pub fill_days_lem :
      (date_of value_of : Row → Value) (rows : List Row) (from to fuel : ℕ)
      → days_between (midnight (zone_day from)) (midnight (zone_day to)) < fuel
      → fill_days calendar fuel date_of value_of rows (from, to)
        ≡ some (
            map
              (λ cursor. (utc_day cursor, added date_of value_of (utc_day cursor) nought rows))
              (days
                (days_between (midnight (zone_day from)) (midnight (zone_day to)))
                (midnight (zone_day from))))
  unfolding fill_days
  fill_days_lem date_of value_of rows from to fuel h =
      let first = midnight (zone_day from) in
      let last = midnight (zone_day to) in
      let totals = totals_of calendar date_of value_of [] rows in
      points_lem (days_between first last) fuel totals first last refl h
      ∙ ap some (map-points date_of value_of rows (days (days_between first last) first))
