-- ===== src/Tests/Controller.antt =====
-- The resource controller at a concrete resource, whose field `token` nobody may read.
use flowpanel.Base.{true, false, ◌≡◌, refl, Option, none, some, List, [], ◌∷◌, ok}
use flowpanel.Base.Dict.{lookup, insert, keys}
use flowpanel.Base.Text.{contains}
use flowpanel.Base.Value.{str, obj, prop, end, Row}
use flowpanel.Errors.{Throws}
use flowpanel.Policy.{
  check_require_role, assert_resource_scope, resolve_operation_access, authorize_operation,
}
use flowpanel.Rows.{project_row}
use flowpanel.Related.{Listed}
use flowpanel.Controller.{whole, ListOptions, Listing, ListQuery, ItemQuery, get}
use flowpanel.Controller.Params.{SearchParams, sanitize}
use flowpanel.Controller.Answers.{IsItem, get-IsItem}
use flowpanel.Controller.Commands.{update}
use flowpanel.Writes.{State, mutation}
use flowpanel.Tests.Writes.{admin, start}
use flowpanel.Tests.Writes
use flowpanel.Tests.Reads.{config, editor, user, users, target, shown}

abbrev address : SearchParams
address =
    ("f_token", "s3")
    ∷ ("filter.name", "Ada")
    ∷ ("sort", "token:asc")
    ∷ ("q", "a")
    ∷ ("page", "2")
    ∷ []

cleaned_address : sanitize address ("name" ∷ []) false ≡ ("filter.name", "Ada") ∷ ("page", "2") ∷ []
unfolding sanitize
cleaned_address = refl

abbrev listing : Listing
listing = record {
  filters = str "name" ∷ obj (prop "field" (str "token") end) ∷ [];
  search = "name" ∷ "token" ∷ [];
  default_sort = some ("token", true);
  page_size = none;
  primary_key = some "id";
}

-- A page and a size that are too large, and a filter by the field that may not be read.
abbrev greedy : ListOptions
greedy = record {
  page = whole 1_000_000;
  page_size = some (whole 500);
  search = some "a";
  filters = ("token", str "s3") ∷ ("name", str "Ada") ∷ [];
  sort = none;
  select = none;
  include_deleted = true;
}

-- Adapters that return whole rows.
abbrev ask : ListQuery → Throws Listed
ask q = ok (record { rows = user ∷ []; total = some 1; page = none; page_size = none })

abbrev ask_one : ItemQuery → Throws (Option Row)
ask_one q = ok (some user)

abbrev one_row : Listed
one_row = record { rows = shown ∷ []; total = some 1; page = none; page_size = none }

get-eq : get ask_one config target listing editor address "1" none ≡ ok shown
unfolding get contains lookup keys insert project_row check_require_role assert_resource_scope
    resolve_operation_access authorize_operation
get-eq = refl

get-IsItem_example : IsItem config target listing editor address ask_one "1" shown
get-IsItem_example = get-IsItem config target listing editor address ask_one "1" none shown get-eq

abbrev renamed : Throws Row × State (List Row)
renamed =
    update (admin false) Writes.users users Writes.editor "1" (obj (prop "name" (str "Ada") end))
      start

renamed-eq : renamed ≡ (ok Writes.ada, renamed.1)
unfolding update check_require_role assert_resource_scope resolve_operation_access
    authorize_operation keys mutation
renamed-eq = refl
