-- ===== src/Tests/Reads.antt =====
-- Rows and related reads at a concrete resource.
use flowpanel.Base.{ℕ, String, true, false, ◌≡◌, refl, none, some, List, [], ◌∷◌, ok, err, All}
use flowpanel.Base.Dict.{lookup, insert, keys}
use flowpanel.Base.Text.{contains}
use flowpanel.Base.Value.{str, Row}
use flowpanel.Errors.{Throws, known, access}
use flowpanel.Policy.{
  only, check_require_role, assert_resource_scope, resolve_operation_access, authorize_operation,
}
use flowpanel.Guards.{Config, RequestContext}
use flowpanel.Rows.{Shape, project_authorized_row, project_row}
use flowpanel.Related.{
  Target, Options, Query, Listed, Page, ask, prepare, query_of, fields_of, authorize_read,
  read_related_page,
}
use flowpanel.Related.Counts.{read_related_count}
use flowpanel.Related.FailClosed.{IsAuthorized, prepare-IsAuthorized}
use flowpanel.Related.Answers.{
  IsReadable, IsHidden, read_related_page-IsReadable, read_related_count-hidden,
}

abbrev pub config : Config
config = record {
  same_origin_off = false;
  trusted_origins = [];
  read_only = false;
  session_of = λ _. ok none;
  role_of = λ _. ok "editor";
  require_role = none;
  actor_id = λ _. none;
  scope = none;
  rate_limit = none;
  on_error = none;
}

abbrev pub editor : RequestContext
editor = record {
  caller = record { session = none; role = "editor"; scope = none };
  request_id = "r";
  ip = none;
  user_agent = none;
}

abbrev pub users : Shape
users = record {
  columns = str "name" ∷ str "token" ∷ [];
  expose = [];
  row_key = none;
  field_access = ("token", record { read_rule = none; write_rule = none; sensitive = true }) ∷ [];
}

abbrev pub user : Row
user = ("id", str "1") ∷ ("name", str "Ada") ∷ ("token", str "s3cret") ∷ []

abbrev pub shown : Row
shown = ("name", str "Ada") ∷ ("id", str "1") ∷ []

shown-eq : project_authorized_row users user editor.caller [] ≡ ok shown
unfolding project_authorized_row lookup contains insert
shown-eq = refl

abbrev pub target : Target
target = record {
  name = "users";
  resource = record { access = none; require_role = none; scope = none };
  shape = users;
  columns = "id" ∷ "name" ∷ "token" ∷ [];
  soft_delete = none;
}

abbrev by_name : Options
by_name = record {
  filters = ("name", str "Ada") ∷ [];
  sort = some ("token", true);
  page = none;
  page_size = none;
  search = some "a";
  search_fields = "token" ∷ "name" ∷ [];
  extra_fields = [];
  include_deleted = false;
  count_only = false;
}

-- An adapter that returns whole rows.
abbrev whole_rows : Query → Throws Listed
whole_rows q = ok (record { rows = user ∷ []; total = some 1; page = none; page_size = none })

abbrev readable : List String
readable = "name" ∷ "id" ∷ []

prepared :
    prepare target editor by_name
    ≡ ok (ask (query_of target editor by_name readable) (fields_of target by_name readable))
unfolding prepare contains lookup keys
prepared = refl

prepare-IsAuthorized_example :
    IsAuthorized target editor by_name
      (query_of target editor by_name readable)
      (fields_of target by_name readable)
prepare-IsAuthorized_example =
    prepare-IsAuthorized target editor by_name (query_of target editor by_name readable)
      (fields_of target by_name readable) prepared

abbrev page : Page
page = record { rows = shown ∷ []; total = 1; page = 1; page_size = 20 }

page-eq : read_related_page whole_rows config target editor by_name ≡ ok (some page)
unfolding read_related_page contains lookup keys insert project_row check_require_role
    assert_resource_scope resolve_operation_access authorize_operation
page-eq = refl

read_related_page-IsReadable_example :
    (authorize_read config target editor ≡ ok tt) × All (IsReadable target editor) (shown ∷ [])
read_related_page-IsReadable_example =
    read_related_page-IsReadable whole_rows target editor by_name config page page-eq

abbrev locked : Target
locked = record target {
  resource = record { access = none; require_role = some (only "admin"); scope = none };
}

locked-eq : authorize_read config locked editor ≡ err (known (access "Forbidden"))
unfolding authorize_read check_require_role contains
locked-eq = refl

token-IsHidden : IsHidden target editor (("token", str "s") ∷ []) "token"
unfolding contains keys lookup
token-IsHidden = (refl, λ may. cc (may.0))

counted-eq :
    read_related_count whole_rows none config target editor (("token", str "s") ∷ []) ≡ ok (some 0)
unfolding read_related_count contains keys lookup check_require_role assert_resource_scope
    resolve_operation_access authorize_operation
counted-eq = refl

read_related_count-hidden_example : ◌≡◌ {A = ℕ} 0 0
read_related_count-hidden_example =
    read_related_count-hidden target editor (("token", str "s") ∷ []) "token" token-IsHidden
      whole_rows none config 0 counted-eq
