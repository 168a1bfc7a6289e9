-- ===== src/Csv/Cells.antt =====
-- A cell that is written is read back.
use flowpanel.Base.{
  Bool, true, false, not, ◌||◌, ◌≡◌, refl, List, [], ◌∷◌, ◌++◌, eqb, arith, any, Bool-cases, inl,
  inr,
}
use mathlib.Core.List.{append_assoc, append-nil}
use flowpanel.Csv.{
  Text, Reader, quote, is_special, is_next, is_blank, neutralize_formula, double_quotes,
  escape_csv_field, read_from, step,
}

-- A reader outside quotes, inside a row: the rows and the cells before, whether the row has started,
-- and the cell so far.
abbrev pub bare : List (List Text) → List Text → Bool → Text → Reader
bare rows row started field = record {
  rows = rows;
  row = row;
  field = field;
  in_quotes = false;
  started = started;
  skip = false;
}

read_quoted :
    (g acc rest : Text) (r : Reader)
    → is_next rest quote ≡ false
    → r.skip ≡ false
    → read_from (double_quotes g ++ quote ∷ rest) (record r { field = acc; in_quotes = true })
      ≡ read_from rest (record r { field = acc ++ g; in_quotes = false })
unfolding read_from double_quotes step
read_quoted [] acc rest r h k = ground (arith, h, k, append-nil acc)
read_quoted (c ∷ g) acc rest r h k = elim (Bool-cases (eqb c quote)) [
  | inl q ↦
      ground
        (arith, q, h, k, read_quoted g (acc ++ quote ∷ []) rest r h k, append_assoc acc (c ∷ []) g)
  | inr q ↦
      ground (arith, q, k, read_quoted g (acc ++ c ∷ []) rest r h k, append_assoc acc (c ∷ []) g)
]

read_bare :
    (g acc rest : Text) (rows : List (List Text)) (row : List Text) (b : Bool)
    → any is_special g ≡ false
    → read_from (g ++ rest) (bare rows row b acc)
      ≡ read_from rest (bare rows row (b || not (is_blank g)) (acc ++ g))
unfolding read_from step
read_bare [] acc rest rows row b h = ground (arith, append-nil acc)
read_bare (c ∷ g) acc rest rows row b h =
    ground (arith, read_bare g (acc ++ c ∷ []) rest rows row true, append_assoc acc (c ∷ []) g)

any-blank : (g : Text) → any is_special g ≡ true → is_blank g ≡ false
any-blank [] e = cc
any-blank (_ ∷ _) e = refl

-- A cell is read back, before anything that is no quote, and starts its row unless it is empty.
pub read_from-escape :
    (cell rest : Text) (rows : List (List Text)) (row : List Text) (b : Bool)
    → is_next rest quote ≡ false
    → read_from (escape_csv_field cell ++ rest) (bare rows row b [])
      ≡ read_from rest
          (bare rows row (b || not (is_blank (neutralize_formula cell))) (neutralize_formula cell))
unfolding read_from escape_csv_field step
read_from-escape cell rest rows row b h =
    let safe = neutralize_formula cell in
    elim (Bool-cases (any is_special safe)) [
      | inl special ↦ ground (
        arith,
        special,
        append_assoc (double_quotes safe) (quote ∷ []) rest,
        read_quoted safe [] rest (bare rows row true []) h refl,
        any-blank safe special,
      )
      | inr plain ↦ ground (arith, plain, read_bare safe [] rest rows row b plain)
    ]
