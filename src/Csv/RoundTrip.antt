-- ===== src/Csv/RoundTrip.antt =====
-- What an export writes, an import reads.
use flowpanel.Base.{
  Bool, true, false, not, ◌||◌, ◌≡◌, refl, sym, ◌∙◌, ap, List, [], ◌∷◌, ◌++◌, arith, any, keep, map,
  All, if◌then◌else◌,
}
use mathlib.Core.List.{append_assoc, append-nil}
use flowpanel.Csv.{
  Text, Reader, quote, comma, is_next, is_blank, neutralize_formula, escape_csv_field, write_row,
  write_rows, read_from, step, finish, parse_csv_rows, strip_bom,
}
use flowpanel.Csv.Cells.{bare, read_from-escape}

abbrev pub neutral : List Text → List Text
neutral row = map neutralize_formula row

-- The row has a cell that is not empty.
abbrev pub has_text : List Text → Bool
has_text row = any (λ c. not (is_blank c)) row

-- A reader at the end of a row `cells` that it began with `row`.
record AtEnd (cells row : List Text) (b : Bool) (row' : List Text) (b' : Bool) (last : Text)
    : Type 0 where
  same : row' ++ last ∷ [] ≡ row ++ cells
  begun : b || has_text cells ≡ true → b' || not (is_blank last) ≡ true

read_row :
    (first : Text) (more : List Text) (rest : Text) (rows : List (List Text)) (row : List Text)
    (b : Bool)
    → is_next rest quote ≡ false
    → (row' : List Text) × (b' : Bool) × (last : Text) × AtEnd
        (neutral (first ∷ more))
        row
        b
        row'
        b'
        last
      × (read_from (write_row (first ∷ more) ++ rest) (bare rows row b [])
          ≡ read_from rest (bare rows row' b' last))
unfolding write_row read_from step
read_row first [] rest rows row b h = (
  row,
  _,
  neutralize_formula first,
  record { same = refl; begun = ground arith },
  read_from-escape first rest rows row b h,
)
read_row first (second ∷ more) rest rows row b h =
    let safe = neutralize_formula first in
    let (row', b', last, ends, reads) = read_row second more rest rows (row ++ safe ∷ []) true h in
    (
      row',
      b',
      last,
      record {
        same = ends.same ∙ append_assoc row (safe ∷ []) (neutral (second ∷ more));
        begun = λ _. ends.begun refl;
      },
      ground (
        arith,
        append_assoc (escape_csv_field first) (comma ∷ write_row (second ∷ more)) rest,
        read_from-escape first (comma ∷ (write_row (second ∷ more) ++ rest)) rows row b refl,
        reads,
      ),
    )

keep-snoc :
    (p : List Text → Bool) (xs : List (List Text)) (x : List Text)
    → keep p (xs ++ x ∷ []) ≡ keep p xs ++ (if p x then x ∷ [] else [])
keep-snoc p [] x = ground arith
keep-snoc p (y ∷ ys) x = ground (arith, keep-snoc p ys x)

-- The end of the text behind a row.
finish_row :
    (rows : List (List Text)) (cells row' : List Text) (b' : Bool) (last : Text)
    → AtEnd cells [] false row' b' last
    → has_text cells ≡ true
    → finish (bare rows row' b' last) ≡ keep has_text rows ++ cells ∷ []
unfolding finish
finish_row rows cells row' b' last ends full =
    ground (arith, full, ends.begun full, ends.same, keep-snoc has_text rows cells)

-- The end of a line behind a row.
read_line_end :
    (rest : Text) (rows : List (List Text)) (row' : List Text) (b' : Bool) (last : Text)
    → read_from (13 ∷ 10 ∷ rest) (bare rows row' b' last)
      ≡ read_from rest (bare (rows ++ (row' ++ last ∷ []) ∷ []) [] false [])
unfolding read_from step
read_line_end rest rows row' b' last = refl

read_end : (r : Reader) → read_from [] r ≡ r
unfolding read_from
read_end r = refl

finish_start :
    (rows : List (List Text))
    → finish (read_from [] (bare rows [] false [])) ≡ keep has_text rows ++ []
unfolding finish read_from
finish_start rows = sym (append-nil (keep has_text rows))

keep_row :
    (rows : List (List Text)) (cells row' : List Text) (b' : Bool) (last : Text)
    → AtEnd cells [] false row' b' last
    → has_text cells ≡ true
    → (later : List (List Text))
    → keep has_text (rows ++ (row' ++ last ∷ []) ∷ []) ++ later
      ≡ keep has_text rows ++ cells ∷ later
keep_row rows cells row' b' last ends full later = ground (
  arith,
  full,
  ends.same,
  keep-snoc has_text rows cells,
  append_assoc (keep has_text rows) (cells ∷ []) later,
)

read_rows :
    (texts : List (List Text)) (rows : List (List Text))
    → All (λ row. has_text (neutral row) ≡ true) texts
    → finish (read_from (write_rows texts) (bare rows [] false []))
      ≡ keep has_text rows ++ map neutral texts
unfolding write_rows
read_rows [] rows h = finish_start rows
read_rows ([] ∷ more) rows (full, h) = cc
read_rows ((cell ∷ cells) ∷ []) rows (full, h) =
    let (row', b', last, ends, reads) = read_row cell cells [] rows [] false refl in
    ap (λ t. finish (read_from t (bare rows [] false [])))
      (sym (append-nil (write_row (cell ∷ cells))))
    ∙ ap finish (reads ∙ read_end (bare rows row' b' last))
    ∙ finish_row rows (neutral (cell ∷ cells)) row' b' last ends full
read_rows ((cell ∷ cells) ∷ next ∷ more) rows (full, h) =
    let rest = write_rows (next ∷ more) in
    let (row', b', last, ends, reads) = read_row cell cells (13 ∷ 10 ∷ rest) rows [] false refl in
    let rows' = rows ++ (row' ++ last ∷ []) ∷ [] in
    ap finish (reads ∙ read_line_end rest rows row' b' last)
    ∙ read_rows (next ∷ more) rows' h
    ∙ keep_row rows (neutral (cell ∷ cells)) row' b' last ends full (map neutral (next ∷ more))

-- A text that does not begin with the mark U+FEFF.
abbrev pub IsUnmarked : Text → Type 0
IsUnmarked t = strip_bom t ≡ t

-- An import reads the rows that an export wrote: the same rows in the same order with the same
-- cells, quotes, commas and line ends inside them included, up to the apostrophe that the export
-- sets before a cell that looks like a formula. A row of which every cell is empty would be dropped,
-- so each row has a cell that is not; and a text that begins with the mark U+FEFF would lose it.
pub parse_csv_rows-write_rows :
    (texts : List (List Text))
    → All (λ row. has_text (neutral row) ≡ true) texts
    → IsUnmarked (write_rows texts)
    → parse_csv_rows (write_rows texts) ≡ map neutral texts
unfolding parse_csv_rows
parse_csv_rows-write_rows texts h unmarked = rw unmarked (read_rows texts [] h)
