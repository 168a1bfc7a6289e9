-- ===== src/MigrationSql/Quoted.antt =====
-- A quoted text is one statement, whatever stands inside the quotes.
use flowpanel.Base.{ℕ, true, false, ◌≡◌, ◌≢◌, ◌∙◌, ap, some, [], ◌∷◌, ◌++◌, ok, arith, All, ◌⊎◌}
use mathlib.Core.List.{append_assoc}
use flowpanel.MigrationSql.{Text, Options, Lexer, start, trim, loop, close, tokenize, step}

-- The units of quotes that end with the unit that they begin with.
abbrev pub IsQuote : ℕ → Type 0
IsQuote q = (q ≡ b'\'') ⊎ (q ≡ b'"') ⊎ (q ≡ b'`')

-- A unit that stands for itself between quotes `q`.
abbrev pub IsInner : ℕ → ℕ → Type 0
IsInner q c = (c ≢ q) × (c ≢ b'\\')

abbrev within : ℕ → Text → Lexer
within q taken = record start { taken = taken; quote = some q; has_code = true; syntax = 32 ∷ [] }

abbrev after : Text → Lexer
after taken = record start { taken = taken; has_code = true; syntax = 32 ∷ [] }

step_inner :
    (o : Options) (q c : ℕ) (rest taken : Text)
    → IsInner q c
    → step o c rest (within q taken) ≡ within q (taken ++ c ∷ [])
unfolding step
step_inner o q c rest taken h = ground (arith, h)

step_closing :
    (o : Options) (q : ℕ) (taken : Text)
    → IsQuote q
    → step o q [] (within q taken) ≡ after (taken ++ q ∷ [])
unfolding step
step_closing o q taken h = ground (arith, h)

step_opening :
    (o : Options) (q : ℕ) (rest : Text) → IsQuote q → step o q rest start ≡ within q (q ∷ [])
unfolding step
step_opening o q rest h = ground (arith, h)

loop_quoted :
    (o : Options) (q : ℕ) (body taken : Text)
    → IsQuote q
    → All (IsInner q) body
    → loop o (body ++ q ∷ []) (within q taken) ≡ after (taken ++ (body ++ q ∷ []))
unfolding loop
loop_quoted o q [] taken k h = step_closing o q taken k
loop_quoted o q (c ∷ body) taken k (inner, h) = ground (
  arith,
  step_inner o q c (body ++ q ∷ []) taken inner,
  loop_quoted o q body (taken ++ c ∷ []) k h,
  append_assoc taken (c ∷ []) (body ++ q ∷ []),
)

-- Semicolons, comment signs, brackets, dollar signs and other quotes inside a quoted text end and
-- begin nothing: the text is one statement, and its syntax, which the checks of the adapters read,
-- shows nothing of what was quoted.
pub tokenize_quoted :
    (o : Options) (q : ℕ) (body : Text)
    → IsQuote q
    → All (IsInner q) body
    → tokenize o (q ∷ (body ++ q ∷ []))
      ≡ ok (
          record {
            text = trim (q ∷ (body ++ q ∷ []));
            syntax = [];
            has_dollar_quote = false;
            has_executable_mysql_comment = false;
          }
          ∷ [])
unfolding tokenize loop close trim
tokenize_quoted o q body k h =
    ap (λ s. close (loop o (body ++ q ∷ []) s)) (step_opening o q (body ++ q ∷ []) k)
    ∙ ap close (loop_quoted o q body (q ∷ []) k h)
