-- ===== src/Csv.antt =====
-- packages/react/src/_data/csv-export.tsx and packages/next/src/runtime/parse-import.ts: what an
-- export writes and an import reads. A text is the list of its UTF-16 code units; how a cell value
-- becomes a text is `formatCell`'s affair, so a row is its list of texts.

pub mod Cells
pub mod RoundTrip
use flowpanel.Base.{
  ℕ, zero, suc, Bool, true, false, not, ◌&&◌, ◌||◌, Option, none, some, List, [], ◌∷◌, ◌++◌, eqb,
  any, keep, map, if◌then◌else◌,
}

abbrev pub Text : Type 0
Text = List ℕ

abbrev pub quote : ℕ
quote = b'"'

abbrev pub comma : ℕ
comma = b','

-- A cell that a spreadsheet would take for a formula, or that starts with a tab or a return.
abbrev pub starts_formula : Text → Bool
starts_formula [] = false
starts_formula (c ∷ cs) =
    eqb c b'=' || eqb c b'+' || eqb c b'-' || eqb c b'@' || eqb c 9 || eqb c 13

-- `neutralizeFormula`.
unfoldable pub neutralize_formula : Text → Text
neutralize_formula t = if starts_formula t then b'\'' ∷ t else t

-- /[",\r\n]/.
abbrev pub is_special : ℕ → Bool
is_special c = eqb c quote || eqb c comma || eqb c 13 || eqb c 10

-- `replace(/"/g, '""')`.
unfoldable pub double_quotes : Text → Text
double_quotes [] = []
double_quotes (c ∷ cs) =
    let rest = double_quotes cs in if eqb c quote then quote ∷ quote ∷ rest else c ∷ rest

-- `escapeCsvField`.
unfoldable pub escape_csv_field : Text → Text
unfolding neutralize_formula double_quotes
escape_csv_field value =
    let safe = neutralize_formula value in
    if any is_special safe then quote ∷ (double_quotes safe ++ quote ∷ []) else safe

-- `cells.map(escapeCsvField).join(",")`.
unfoldable pub write_row : List Text → Text
unfolding escape_csv_field
write_row [] = []
write_row (cell ∷ []) = escape_csv_field cell
write_row (cell ∷ more) = escape_csv_field cell ++ comma ∷ write_row more

-- The `join("\r\n")` of `rowsToCsv`, over the header and the rows.
unfoldable pub write_rows : List (List Text) → Text
unfolding write_row
write_rows [] = []
write_rows (row ∷ []) = write_row row
write_rows (row ∷ more) = write_row row ++ 13 ∷ 10 ∷ write_rows more

-- The variables of the loop of `parseCsvRows`; `skip` is the `i++` inside it.
pub record Reader : Type 0 where
  pub rows : List (List Text)
  pub row : List Text
  pub field : Text
  pub in_quotes : Bool
  pub started : Bool
  pub skip : Bool

abbrev pub is_next : Text → ℕ → Bool
is_next [] c = false
is_next (d ∷ ds) c = eqb d c

quoted_step : ℕ → Text → Reader → Reader
quoted_step c rest r =
    if eqb c quote
    then if is_next rest quote
      then record r { field = r.field ++ quote ∷ []; skip = true }
      else record r { in_quotes = false }
    else record r { field = r.field ++ c ∷ [] }

bare_step : ℕ → Text → Reader → Reader
bare_step c rest r =
    if eqb c quote
    then record r { in_quotes = true; started = true }
    else if eqb c comma
    then record r { row = r.row ++ r.field ∷ []; field = []; started = true }
    else if eqb c 10 || eqb c 13
    then record r {
      rows = r.rows ++ (r.row ++ r.field ∷ []) ∷ [];
      row = [];
      field = [];
      started = false;
      skip = eqb c 13 && is_next rest 10;
    }
    else record r { field = r.field ++ c ∷ []; started = true }

-- One round of the loop.
step : ℕ → Text → Reader → Reader
unfolding quoted_step bare_step
step c rest r =
    if r.skip
    then record r { skip = false }
    else if r.in_quotes
    then quoted_step c rest r
    else bare_step c rest r

unfoldable pub read_from : Text → Reader → Reader
unfolding step
read_from [] r = r
read_from (c ∷ rest) r = read_from rest (step c rest r)

abbrev pub new_reader : Reader
new_reader = record {
  rows = [];
  row = [];
  field = [];
  in_quotes = false;
  started = false;
  skip = false;
}

abbrev pub is_blank : Text → Bool
is_blank [] = true
is_blank (_ ∷ _) = false

-- The last row, and the filter that drops rows of empty cells.
unfoldable pub finish : Reader → List (List Text)
finish r =
    keep (any (λ c. not (is_blank c))) (
      if r.started || not (is_blank r.field)
      then r.rows ++ (r.row ++ r.field ∷ []) ∷ []
      else r.rows)

abbrev pub strip_bom : Text → Text
strip_bom [] = []
strip_bom (c ∷ cs) = if eqb c 0xfeff then cs else c ∷ cs

-- `parseCsvRows`.
unfoldable pub parse_csv_rows : Text → List (List Text)
unfolding read_from finish
parse_csv_rows input = finish (read_from (strip_bom input) new_reader)
