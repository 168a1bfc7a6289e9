-- ===== src/Selection/Toggles.antt =====
-- What a click selects.
use flowpanel.Base.{
  String, true, false, not, ◌≡◌, ◌≢◌, refl, ◌&&◌, ◌||◌, ◌==◌, eq_iff, eq_refl, List, [], ◌∷◌, all,
  arith, if◌then◌else◌,
}
use flowpanel.Base.Text.{contains, contains-keep}
use flowpanel.Rows.{unique}
use flowpanel.Rows.Projection.{contains-add, contains-add_all, contains-unique}
use flowpanel.Selection.{all_on_page, toggle_row, toggle_all}

-- A click on a row turns its own selection around and leaves that of every other row.
pub toggle_row-contains :
    (selection : List String) (id k : String)
    → contains (toggle_row selection id) k
      ≡ (if id == k then not (contains selection id) else contains selection k)
unfolding toggle_row
toggle_row-contains selection id k = ground (
  arith,
  eq_iff id k,
  eq_iff k id,
  contains-unique selection id,
  contains-unique selection k,
  contains-add (unique selection) id k,
  contains-keep (λ j. not (j == id)) (unique selection) k,
)

all-contains-unique :
    (selection page : List String)
    → all (contains (unique selection)) page ≡ all (contains selection) page
all-contains-unique selection [] = refl
all-contains-unique selection (id ∷ ids) =
    ground (arith, contains-unique selection id, all-contains-unique selection ids)

all_on_page-unique :
    (selection page : List String)
    → all_on_page (unique selection) page ≡ all_on_page selection page
unfolding all_on_page
all_on_page-unique selection page = ground (arith, all-contains-unique selection page)

-- A click on the head of the table takes the rows of the page out of the selection, if all of them
-- are in it, and else puts all of them in; rows of other pages stay as they are.
pub toggle_all-contains :
    (selection page : List String) (k : String)
    → contains (toggle_all selection page) k ≡ (
        if all_on_page selection page
        then contains selection k && not (contains page k)
        else contains selection k || contains page k)
unfolding toggle_all
toggle_all-contains selection page k = ground (
  arith,
  all_on_page-unique selection page,
  contains-unique selection k,
  contains-add_all (unique selection) page k,
  contains-keep (λ j. not (contains page j)) (unique selection) k,
)

-- A selection that holds the page has all of it selected.
all-contains :
    (selection ids : List String)
    → ((k : String) → contains ids k ≡ true → contains selection k ≡ true)
    → all (contains selection) ids ≡ true
unfolding contains
all-contains selection [] within = refl
all-contains selection (id ∷ ids) within =
    ground (
      arith,
      eq_refl id,
      within id,
      all-contains selection ids (λ k e. within k (ground (arith, e))),
    )

all_on_page-toggle_all :
    (selection page : List String)
    → page ≢ []
    → all_on_page selection page ≡ false
    → all_on_page (toggle_all selection page) page ≡ true
unfolding all_on_page
all_on_page-toggle_all selection [] filled some_out = absurd (filled refl)
all_on_page-toggle_all selection (id ∷ ids) filled some_out =
    all-contains (toggle_all selection (id ∷ ids)) (id ∷ ids)
      (λ k e. ground (arith, some_out, e, toggle_all-contains selection (id ∷ ids) k))

-- After a second click on the head, where the first one selected the page, no row of the page is
-- selected and the rows of other pages are as they were.
pub toggle_all-toggle_all :
    (selection page : List String) (k : String)
    → page ≢ []
    → all_on_page selection page ≡ false
    → contains (toggle_all (toggle_all selection page) page) k
      ≡ (contains selection k && not (contains page k))
toggle_all-toggle_all selection page k filled some_out = ground (
  arith,
  some_out,
  all_on_page-toggle_all selection page filled some_out,
  toggle_all-contains selection page k,
  toggle_all-contains (toggle_all selection page) page k,
)
