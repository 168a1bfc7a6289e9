-- ===== src/Selection.antt =====
-- packages/react/src/_data/useDataTableSelection.ts: which rows of a table are selected, over the
-- pages of the table. Selected sets are the lists that the change handler is called with.
-- `String` of a number is a parameter.
pub mod Toggles
use flowpanel.Base.{
  ℕ, String, Bool, true, false, not, ◌&&◌, ◌==◌, Option, none, some, List, [], ◌∷◌, ◌++◌, keep, all,
  if◌then◌else◌,
}
use flowpanel.Base.Text.{contains, add}
use flowpanel.Base.Dict.{lookup}
use flowpanel.Base.Value.{Value, str, num, Row}
use flowpanel.Rows.{add_all, unique}

-- How a table names its rows: by a function, or by a column.
pub record Naming : Type 0 where
  pub get_row_key : Option (Row → String)
  pub row_key : String
  pub text_of : ℕ → String

-- `text || null`.
abbrev non_empty : String → Option String
non_empty s = if s == "" then none else some s

abbrev key_of : (ℕ → String) → Option Value → Option String
key_of text_of (some (str s)) = non_empty s
key_of text_of (some (num n)) = some (text_of n)
key_of text_of _ = none

-- `identityOf`.
unfoldable pub identity_of : Naming → Row → Option String
unfolding lookup
identity_of n row = elim n.get_row_key [
  | some f ↦ non_empty (f row)
  | none ↦ key_of n.text_of (lookup n.row_key row)
]

-- The identities of the rows of the page that have one: `identifiable` with `identityOf`.
unfoldable pub identities : Naming → List Row → List String
unfolding identity_of
identities n [] = []
identities n (row ∷ rows) =
    let later = identities n rows in
    elim (identity_of n row) [ none ↦ later | some id ↦ id ∷ later ]

abbrev pub is_nil : List String → Bool
is_nil [] = true
is_nil (_ ∷ _) = false

-- `allOnPageSelected`.
unfoldable pub all_on_page : List String → List String → Bool
unfolding contains
all_on_page selected page = not (is_nil page) && all (contains selected) page

-- `toggleRow`, where selection is enabled: what the handler is called with.
unfoldable pub toggle_row : List String → String → List String
unfolding unique contains add
toggle_row selection id =
    let selected = unique selection in
    if contains selected id then keep (λ k. not (k == id)) selected else add selected id

-- `toggleAll`.
unfoldable pub toggle_all : List String → List String → List String
unfolding unique contains all_on_page add_all
toggle_all selection page =
    let selected = unique selection in
    if all_on_page selected page
    then keep (λ k. not (contains page k)) selected
    else add_all selected page
