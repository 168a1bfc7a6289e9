-- ===== src/Tests/Texts.antt =====
-- Migrations at concrete texts.
use flowpanel.Base.{◌≡◌, refl, true, false, List, [], ◌∷◌, map, All, ok, arith}
use flowpanel.Csv.{write_rows, parse_csv_rows, neutralize_formula}
use flowpanel.Csv.RoundTrip.{neutral, has_text, IsUnmarked, parse_csv_rows-write_rows}
use flowpanel.MigrationSql.{Text, Options, tokenize}
use flowpanel.MigrationSql.Plain.{pieces, tokenize_plain}

abbrev postgres : Options
postgres = record { dollar_quotes = true; mysql_comments = false }

-- "a-b;c"
tokenize_plain_example :
    tokenize postgres (97 ∷ 45 ∷ 98 ∷ 59 ∷ 99 ∷ []) ≡ ok (pieces [] (97 ∷ 45 ∷ 98 ∷ 59 ∷ 99 ∷ []))
tokenize_plain_example = tokenize_plain postgres (97 ∷ 45 ∷ 98 ∷ 59 ∷ 99 ∷ []) (ground arith)

-- The header "a,b" and a row with a formula, a comma and a quote.
abbrev sheet : List (List Text)
sheet = ((97 ∷ []) ∷ (98 ∷ []) ∷ []) ∷ ((61 ∷ 49 ∷ []) ∷ (44 ∷ 34 ∷ []) ∷ []) ∷ []

sheet-has_text : All (λ row. has_text (neutral row) ≡ true) sheet
unfolding neutralize_formula
sheet-has_text = (refl, (refl, tt))

sheet-IsUnmarked : IsUnmarked (write_rows sheet)
unfolding write_rows
sheet-IsUnmarked = refl

parse_csv_rows-write_rows_example : parse_csv_rows (write_rows sheet) ≡ map neutral sheet
parse_csv_rows-write_rows_example = parse_csv_rows-write_rows sheet sheet-has_text sheet-IsUnmarked
