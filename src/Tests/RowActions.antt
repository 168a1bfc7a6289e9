-- ===== src/Tests/RowActions.antt =====
-- The actions of a resource, at the resource and the database of the writes.
use flowpanel.Base.{
  String, Bool, false, ◌≡◌, refl, ◌⊎◌, none, some, List, [], ◌∷◌, find, ok, err, ◌==◌,
}
use flowpanel.Base.Dict.{lookup}
use flowpanel.Base.Value.{Value, undefined, str, Row}
use flowpanel.Errors.{Throws, Thrown}
use flowpanel.RowActions.{
  RowAction, BulkAction, BulkBody, given, delete_all_rows, Transaction, succeeded, everything,
  compute_shallow_diff, run_bulk_action,
}
use flowpanel.RowActions.Differences.{changed_at, compute_shallow_diff-lookup}
use flowpanel.RowActions.Admission.{Reaches}
use flowpanel.RowActions.Atomic.{IsTransaction, IsChecked, run_bulk_action-IsAtomic}
use flowpanel.Guards.{RequestContext, World}
use flowpanel.Guards.Admission.{Admitted}
use flowpanel.Errors.Report.{no_reports}
use flowpanel.RowActions.{row_action_route, row_spec}
use flowpanel.Writes.{State}
use flowpanel.Writes.Scopes.{Deletes}
use flowpanel.RowActions.Guarded.{row_action_route-Reaches}
use flowpanel.Tests.Requests.{platform, own_request}
use flowpanel.Tests.Writes.{admin, users, editor, start, ada}

abbrev pub same_text : Value → Value → Bool
same_text (str a) (str b) = a == b
same_text _ _ = false

abbrev eve : Row
eve = ("name", str "Eve") ∷ []

compute_shallow_diff-lookup_example :
    ((compute_shallow_diff same_text (some ada) (some eve) ≡ none)
      × ((k : String) → changed_at same_text ada eve eve k ≡ none))
    ⊎ ((old new : Row) × (compute_shallow_diff same_text (some ada) (some eve)
          ≡ some (record { before = some old; after = some new }))
        × ((k : String)
            → (lookup k old ≡ changed_at same_text ada eve ada k)
              × (lookup k new ≡ changed_at same_text ada eve eve k)))
compute_shallow_diff-lookup_example = compute_shallow_diff-lookup same_text ada eve

abbrev touch : RowAction (List Row)
touch = record {
  key = "touch";
  access = none;
  require_role = none;
  when = none;
  hidden = none;
  disabled = none;
  form = [];
  input_schema = none;
  output_schema = none;
  run = λ row input c s. (ok (succeeded everything undefined []), record s { db = eve ∷ [] });
}

abbrev all_or_none : Throws (Unit {0}) × List Row → List Row → Throws (Unit {0}) × List Row
all_or_none (ok u, db) old = (ok u, db)
all_or_none (err t, db) old = (err t, old)

abbrev whole : Transaction (List Row)
whole f db = all_or_none (f db) db

kept : (r : Throws (Unit {0}) × List Row) (old : List Row) → r.0 ≡ ok tt → all_or_none r old ≡ r
kept (ok u, db) old same = refl
kept (err t, db) old same = cc

undone :
    (r : Throws (Unit {0}) × List Row) (old : List Row) (t : Thrown)
    → r.0 ≡ err t
    → all_or_none r old ≡ (err t, old)
undone (ok u, db) old t same = cc
undone (err x, db) old t same = cc

whole-IsTransaction : IsTransaction whole
whole-IsTransaction = record {
  commits = λ f db same. kept (f db) db same;
  rolls_back = λ f db t same. undone (f db) db t same;
}

abbrev bulk : BulkAction (List Row)
bulk = record {
  key = "delete";
  access = none;
  require_role = none;
  max = none;
  form = [];
  input_schema = none;
  output_schema = none;
  work = delete_all_rows;
}

abbrev twice : BulkBody
twice = given ("1" ∷ ("1" ∷ [])) []

run_bulk_action-IsAtomic_example :
    ((run_bulk_action same_text
        (λ n. "?")
        (some whole)
        (admin false)
        users
        bulk
        twice
        editor
        start).1.db
      ≡ start.db)
    ⊎ ((ids : List String) × IsChecked (admin false) users bulk twice editor start.db ids
        × Deletes
            (admin false)
            users
            ids
            editor
            start.db
            (run_bulk_action same_text
              (λ n. "?")
              (some whole)
              (admin false)
              users
              bulk
              twice
              editor
              start).1.db)
run_bulk_action-IsAtomic_example =
    run_bulk_action-IsAtomic same_text (λ n. "?") whole (admin false) users bulk twice editor start
      whole-IsTransaction refl

abbrev pub world : World (State (List Row))
world = record {
  limiter = record { now = 0; buckets = []; calls = [] };
  reports = no_reports;
  app = start;
}

row_action_route-Reaches_example :
    ((row_action_route same_text platform
        (admin false)
        users
        own_request
        "r"
        (touch ∷ [])
        "1"
        "touch"
        (ok [])
        world).1.app
      ≡ start)
    ⊎ ((act : RowAction (List Row)) × (find
            (λ (x : RowAction (List Row)). x.key == "touch")
            (touch ∷ [])
          ≡ some act)
        × ((c : RequestContext) × (row : Row) × (input : Row) × Admitted platform
              (admin false).guard
              own_request
              "r"
              (row_spec users act)
              world
              c
            × Reaches (admin false) users act "1" c (ok []) start.db row input))
row_action_route-Reaches_example =
    row_action_route-Reaches same_text platform (admin false) users own_request "r" (touch ∷ []) "1"
      "touch" (ok []) world
