-- ===== src/MigrationSql.antt =====
-- packages/core/src/internal/migration-sql.ts: `tokenizeMigrationSql`, which splits the text of a
-- migration into statements. A text is the list of its UTF-16 code units. The loop takes one unit a
-- round: where the source moves `index` on, `skip` counts the units that the next rounds pass over,
-- and where it keeps `start`, `taken` is the text since then.
pub mod Plain
pub mod Quoted
use flowpanel.Base.{
  ℕ, zero, suc, ◌+◌, ◌-◌, Bool, true, false, not, ◌&&◌, ◌||◌, Option, none, some, List, [], ◌∷◌,
  ◌++◌, Result, ok, err, eqb, ltb, leb, length, get_elem?, any, is_some, if◌then◌else◌,
}
use mathlib.Core.List.{reverse}

abbrev pub Text : Type 0
Text = List ℕ

-- `\s`, and what `trim` takes away.
abbrev pub is_space : ℕ → Bool
is_space c =
    leb 9 c && leb c 13
    || eqb c 32
    || eqb c 0xa0
    || eqb c 0x1680
    || leb 0x2000 c && leb c 0x200a
    || eqb c 0x2028
    || eqb c 0x2029
    || eqb c 0x202f
    || eqb c 0x205f
    || eqb c 0x3000
    || eqb c 0xfeff

drop_spaces : Text → Text
drop_spaces [] = []
drop_spaces (c ∷ cs) = let rest = drop_spaces cs in if is_space c then rest else c ∷ cs

unfoldable pub trim : Text → Text
unfolding drop_spaces
trim t = reverse (drop_spaces (reverse (drop_spaces t)))

pub record Options : Type 0 where
  pub dollar_quotes : Bool
  pub mysql_comments : Bool

pub record Statement : Type 0 where
  pub text : Text
  pub syntax : Text
  pub has_dollar_quote : Bool
  pub has_executable_mysql_comment : Bool

-- The variables of the loop. `quote` is the closing unit.
pub record Lexer : Type 0 where
  pub statements : List Statement
  pub taken : Text
  pub skip : ℕ
  pub quote : Option ℕ
  pub dollar_quote : Option Text
  pub line_comment : Bool
  pub block_depth : ℕ
  pub has_code : Bool
  pub has_dollar_quote : Bool
  pub has_executable_mysql_comment : Bool
  pub syntax : Text

abbrev pub start : Lexer
start = record {
  statements = [];
  taken = [];
  skip = 0;
  quote = none;
  dollar_quote = none;
  line_comment = false;
  block_depth = 0;
  has_code = false;
  has_dollar_quote = false;
  has_executable_mysql_comment = false;
  syntax = [];
}

abbrev finished : Lexer → Statement
finished s = record {
  text = trim s.taken;
  syntax = trim s.syntax;
  has_dollar_quote = s.has_dollar_quote;
  has_executable_mysql_comment = s.has_executable_mysql_comment;
}

-- `finishStatement`.
unfoldable pub finish_statement : Lexer → Lexer
finish_statement s = record s {
  statements = if s.has_code then s.statements ++ finished s ∷ [] else s.statements;
  taken = [];
  has_code = false;
  has_dollar_quote = false;
  has_executable_mysql_comment = false;
  syntax = [];
}

-- The unit at an index, against a unit; false past the end.
abbrev pub is_at : Text → ℕ → ℕ → Bool
is_at t i c = elim (get_elem? t i) [ none ↦ false | some d ↦ eqb d c ]

abbrev is_letter : ℕ → Bool
is_letter c = leb b'A' c && leb c b'Z' || leb b'a' c && leb c b'z' || eqb c b'_'

abbrev is_word : ℕ → Bool
is_word c = is_letter c || leb b'0' c && leb c b'9'

-- The rest of a tag, up to its closing dollar sign.
tag_rest : Text → Option Text
tag_rest [] = none
tag_rest (c ∷ cs) =
    let more : Option Text = elim (tag_rest cs) [ none ↦ none | some t ↦ some (c ∷ t) ] in
    if eqb c b'$' then some (c ∷ []) else if is_word c then more else none

-- What /^\$(?:[A-Za-z_][A-Za-z0-9_]*)?\$/ matches at a dollar sign; `rest` stands behind it.
unfoldable pub dollar_tag : Text → Option Text
unfolding tag_rest
dollar_tag [] = none
dollar_tag (c ∷ cs) =
    if eqb c b'$' || is_letter c
    then elim (tag_rest (c ∷ cs)) [ none ↦ none | some t ↦ some (b'$' ∷ t) ]
    else none

unfoldable pub starts_with : Text → Text → Bool
starts_with text [] = true
starts_with [] (_ ∷ _) = false
starts_with (c ∷ cs) (d ∷ ds) = eqb c d && starts_with cs ds

-- Takes a unit into the statement.
abbrev consume : ℕ → Lexer → Lexer
consume c s = record s { taken = s.taken ++ c ∷ [] }

abbrev blank : Lexer → Lexer
blank s = record s { syntax = s.syntax ++ 32 ∷ [] }

in_line_comment : ℕ → Lexer → Lexer
in_line_comment c s = if eqb c 10 then record (blank s) { line_comment = false } else s

in_block_comment : ℕ → Text → Lexer → Lexer
in_block_comment c rest s =
    if eqb c b'/' && is_at rest 0 b'*'
    then record s { block_depth = s.block_depth + 1; skip = 1 }
    else if eqb c b'*' && is_at rest 0 b'/'
    then record s { block_depth = s.block_depth - 1; skip = 1 }
    else s

in_dollar_quote : Text → ℕ → Text → Lexer → Lexer
in_dollar_quote tag c rest s =
    if starts_with (c ∷ rest) tag
    then record s { dollar_quote = none; skip = length tag - 1 }
    else s

in_quote : ℕ → ℕ → Text → Lexer → Lexer
in_quote closing c rest s =
    if eqb c b'\\' && not (eqb closing b']')
    then record s { skip = 1 }
    else if eqb c closing
    then if is_at rest 0 closing then record s { skip = 1 } else record s { quote = none }
    else s

abbrev space_or_end : Option ℕ → Bool
space_or_end none = true
space_or_end (some c) = is_space c

abbrev dash_starts_comment : Options → Text → Bool
dash_starts_comment o rest = not o.mysql_comments || space_or_end (get_elem? rest 1)

-- The last tests of the loop: the end of a statement, or a unit of its syntax.
plain : ℕ → Lexer → Lexer
unfolding finish_statement
plain c s = if eqb c b';' then finish_statement s else record (consume c s) {
  has_code = s.has_code || not (is_space c);
  syntax = s.syntax ++ c ∷ [];
}

opened : ℕ → Lexer → Lexer
opened closing s = record (blank s) { quote = some closing; has_code = true }

dollar_opened : Option Text → ℕ → Lexer → Lexer
unfolding plain
dollar_opened none c s = plain c s
dollar_opened (some tag) c s = record (blank (consume c s)) {
  dollar_quote = some tag;
  has_dollar_quote = true;
  has_code = true;
  skip = length tag - 1;
}

-- The tests of the loop outside quotes and comments, in their order.
in_code : Options → ℕ → Text → Lexer → Lexer
unfolding plain opened dollar_opened
in_code o c rest s =
    if eqb c b'-' && is_at rest 0 b'-' && dash_starts_comment o rest
    then record (blank (consume c s)) { line_comment = true; skip = 1 }
    else if o.mysql_comments && eqb c b'#'
    then record (blank (consume c s)) { line_comment = true }
    else if eqb c b'/' && is_at rest 0 b'*'
    then record (blank (consume c s)) {
      has_executable_mysql_comment = s.has_executable_mysql_comment || is_at rest 1 b'!';
      has_code = s.has_code || is_at rest 1 b'!';
      block_depth = 1;
      skip = 1;
    }
    else if eqb c b'\'' || eqb c b'"' || eqb c b'`'
    then opened c (consume c s)
    else if eqb c b'['
    then opened b']' (consume c s)
    else if o.dollar_quotes && eqb c b'$'
    then dollar_opened (dollar_tag rest) c s
    else plain c s

abbrev unquoted : Options → ℕ → Text → Lexer → Option ℕ → Lexer
unquoted o c rest s none = in_code o c rest s
unquoted o c rest s (some closing) = in_quote closing c rest (consume c s)

abbrev undollared : Options → ℕ → Text → Lexer → Option Text → Lexer
undollared o c rest s none = unquoted o c rest s s.quote
undollared o c rest s (some tag) = in_dollar_quote tag c rest (consume c s)

-- One round, at the unit `c` with `rest` behind it.
step : Options → ℕ → Text → Lexer → Lexer
unfolding in_line_comment in_block_comment in_dollar_quote in_quote in_code
step o c rest s =
    if s.line_comment
    then in_line_comment c (consume c s)
    else if ltb 0 s.block_depth
    then in_block_comment c rest (consume c s)
    else undollared o c rest s s.dollar_quote

-- The loop from the unit at the head of the text.
unfoldable pub loop : Options → Text → Lexer → Lexer
unfolding step
loop o [] s = s
loop o (c ∷ rest) s =
    loop o rest (elim s.skip [ zero ↦ step o c rest s | suc n ↦ consume c (record s { skip = n }) ])

-- The check after the loop, and the statement that the end of the text ends. `err` is the only
-- `MigrationSqlLexError`.
unfoldable pub close : Lexer → Result (Unit {0}) (List Statement)
unfolding finish_statement
close s =
    if is_some s.quote || is_some s.dollar_quote || ltb 0 s.block_depth
    then err tt
    else ok (finish_statement s).statements

-- `tokenizeMigrationSql`.
unfoldable pub tokenize : Options → Text → Result (Unit {0}) (List Statement)
unfolding loop close
tokenize o text = close (loop o text start)
