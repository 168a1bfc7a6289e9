-- ===== src/MigrationSql/Plain.antt =====
-- A text that opens no quote, no comment and no dollar quote.
use flowpanel.Base.{
  ℕ, false, not, ◌≡◌, ◌≢◌, List, [], ◌∷◌, ◌++◌, ok, eqb, arith, if◌then◌else◌, any, Bool-cases, inl,
  inr, any-append,
}
use mathlib.Core.List.{append_assoc, append-nil}
use flowpanel.MigrationSql.{
  step, is_at, Text, Options, Statement, Lexer, start, is_space, trim, loop, close, tokenize,
}

-- The unit with `rest` behind it opens nothing: it is no quote and no square bracket, begins no `--` and
-- no `/*`, is no `#` where MySQL's comments are read, and no `$` where dollar quotes are.
abbrev pub IsPlain : Options → ℕ → Text → Type 0
IsPlain o c rest =
    (c ≢ b'\'')
    × (c ≢ b'"')
    × (c ≢ b'`')
    × (c ≢ b'[')
    × (c ≡ b'-' → is_at rest 0 b'-' ≡ false)
    × (c ≡ b'/' → is_at rest 0 b'*' ≡ false)
    × (c ≡ b'#' → o.mysql_comments ≡ false)
    × (c ≡ b'$' → o.dollar_quotes ≡ false)

abbrev pub ArePlain : Options → Text → Type 0
ArePlain o [] = Unit {0}
ArePlain o (c ∷ rest) = IsPlain o c rest × ArePlain o rest

-- A statement of such a text: the piece, without the space around it.
abbrev pub statement : Text → Statement
statement piece = record {
  text = trim piece;
  syntax = trim piece;
  has_dollar_quote = false;
  has_executable_mysql_comment = false;
}

-- The piece, unless it is blank.
abbrev pub if_code : Text → List Statement
if_code piece = if any (λ c. not (is_space c)) piece then statement piece ∷ [] else []

-- The pieces between the semicolons; `piece` is the one that has begun.
pub pieces : Text → Text → List Statement
pieces piece [] = if_code piece
pieces piece (c ∷ cs) =
    let after = if_code piece ++ pieces [] cs in
    let more = pieces (piece ++ c ∷ []) cs in if eqb c b';' then after else more

-- The state of the lexer inside a piece.
abbrev inside : List Statement → Text → Lexer
inside done piece = record start {
  statements = done;
  taken = piece;
  has_code = any (λ c. not (is_space c)) piece;
  syntax = piece;
}

step_plain :
    (o : Options) (c : ℕ) (rest piece : Text) (done : List Statement)
    → IsPlain o c rest
    → step o c rest (inside done piece)
      ≡ (if eqb c b';' then inside (done ++ if_code piece) [] else inside done (piece ++ c ∷ []))
unfolding step
step_plain o c rest piece done h =
    ground (arith, h, any-append (λ d. not (is_space d)) piece (c ∷ []), append-nil done)

loop_plain :
    (o : Options) (cs piece : Text) (done : List Statement)
    → ArePlain o cs
    → close (loop o cs (inside done piece)) ≡ ok (done ++ pieces piece cs)
unfolding loop close pieces
loop_plain o [] piece done h = ground (arith, append-nil done)
loop_plain o (c ∷ cs) piece done (p, h) = elim (Bool-cases (eqb c b';')) [
  | inl ends ↦ ground (
    arith,
    ends,
    step_plain o c cs piece done p,
    loop_plain o cs [] (done ++ if_code piece) h,
    append_assoc done (if_code piece) (pieces [] cs),
  )
  | inr more ↦
      ground (arith, more, step_plain o c cs piece done p, loop_plain o cs (piece ++ c ∷ []) done h)
]

-- A text with no quote and no square bracket, no `--` and no `/*`, no `#` where MySQL's comments are read
-- and no `$` where dollar quotes are, is split at its semicolons: the statements are the pieces between them that are not
-- blank, in their order, each without the space around it and marked with no quote or comment.
pub tokenize_plain :
    (o : Options) (text : Text) → ArePlain o text → tokenize o text ≡ ok (pieces [] text)
unfolding tokenize
tokenize_plain o text h = loop_plain o text [] [] h
