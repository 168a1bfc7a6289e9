-- ===== src/Controller.antt =====
-- packages/next/src/controllers/resource-controller.ts: the reads and writes of a resource that server
-- code calls, with runtime/readable-fields.ts and `declaredFieldSet` of runtime/parse-list-params.ts.
-- The adapter's `list` and `get` are parameters. The database handle, the date range and the abort
-- signal, which are only passed on, are left out.
pub mod Queries
pub mod Params
pub mod Answers
pub mod Commands
use flowpanel.Base.{
  ℕ, String, Bool, true, false, not, ◌&&◌, ◌||◌, ◌==◌, Option, none, some, List, [], ◌∷◌, ◌++◌, ok,
  err, ◌>>=◌, ◌>>◌, keep, map, length, or_else, is_some, if◌then◌else◌, ltb, leb, eqb, min,
}
use flowpanel.Base.Text.{contains, add}
use flowpanel.Base.Dict.{lookup}
use flowpanel.Base.Value.{Value, str, obj, props, Row, Scope}
use flowpanel.Errors.{Throws, Thrown, known, missing, unknown_field_error}
use flowpanel.Policy.{Policies, AccessContext, filter_readable}
use flowpanel.Guards.{Config, RequestContext}
use flowpanel.Rows.{
  Shape, unique, resolve_readable, project_authorized_row, project_authorized_rows,
}
use flowpanel.Related.{Target, Listed, authorize_read, scope_binding, soft_column}
use flowpanel.Controller.Params.{SearchParams, sanitize}

-- What `Number` makes of an option: a whole number from 0, or any other number, NaN included.
pub data Numeric : Type 0 where
  whole : ℕ → Numeric
  other : Numeric

-- `ResourceListOptions`.
pub record ListOptions : Type 0 where
  pub page : Numeric
  pub page_size : Option Numeric
  pub search : Option String
  pub filters : Row
  pub sort : Option (String × Bool)
  pub select : Option (List String)
  pub include_deleted : Bool

-- What the controller reads of the resource's options besides those of its rows; `primary_key` is the
-- one that the adapter introspects.
pub record Listing : Type 0 where
  pub filters : List Value
  pub search : List String
  pub default_sort : Option (String × Bool)
  pub page_size : Option ℕ
  pub primary_key : Option String

-- `ListQueryContext`.
pub record ListQuery : Type 0 where
  pub context : RequestContext
  pub params : SearchParams
  pub filters : Row
  pub sort : Option (String × Bool)
  pub page : ℕ
  pub page_size : ℕ
  pub search : String
  pub select : List String
  pub search_fields : Option (List String)
  pub soft_delete : Option String
  pub include_deleted : Bool
  pub scope : Option Scope

-- `ItemQueryContext`.
pub record ItemQuery : Type 0 where
  pub context : RequestContext
  pub params : SearchParams
  pub id : String
  pub select : List String
  pub scope : Option Scope

add_field_name : List String → Option Value → List String
unfolding add
add_field_name fields (some (str s)) = if s == "" then fields else add fields s
add_field_name fields _ = fields

-- `add` of `exposure` and of `declaredFieldSet`.
unfoldable pub add_declared : List String → Value → List String
unfolding add_field_name lookup
add_declared fields (str s) = add_field_name fields (some (str s))
add_declared fields (obj ps) = add_field_name fields (lookup "field" (props ps))
add_declared fields _ = fields

unfoldable pub add_declared_list : List String → List Value → List String
unfolding add_declared
add_declared_list fields [] = fields
add_declared_list fields (entry ∷ entries) = add_declared_list (add_declared fields entry) entries

-- `exposure`.
unfoldable pub exposure : Shape → Listing → List String
unfolding add_declared_list add
exposure s l =
    add (add_declared_list (add_declared_list [] s.columns) s.expose)
      (or_else s.row_key (or_else l.primary_key "id"))

-- The first field of a selection that is not exposed is refused.
unfoldable pub check_exposed : List String → List String → Throws (Unit {0})
unfolding contains
check_exposed allowed [] = ok tt
check_exposed allowed (field ∷ fields) =
    let rest = check_exposed allowed fields in
    if contains allowed field then rest else err (known (unknown_field_error field))

abbrev pub max_columns : ℕ
max_columns = 256

-- `requested ? [...new Set(requested)] : allowed`.
unfoldable pub chosen : List String → Option (List String) → List String
unfolding unique
chosen allowed none = allowed
chosen allowed (some fields) = unique fields

-- `selectedFields`.
unfoldable pub selected_fields :
    Shape → Listing → AccessContext → Option (List String) → Throws (List String)
unfolding exposure chosen check_exposed filter_readable
selected_fields s l c requested =
    let selected : List String = chosen (exposure s l) requested in
    if ltb max_columns (length selected)
    then err (known (unknown_field_error "select"))
    else check_exposed (exposure s l) selected >>= λ _. filter_readable selected s.field_access c

abbrev add_strings : List String → List String → List String
unfolding add
add_strings fields [] = fields
add_strings fields (s ∷ ss) = add_strings (if s == "" then fields else add fields s) ss

abbrev add_sort : List String → Option (String × Bool) → List String
unfolding add
add_sort fields none = fields
add_sort fields (some (field, down)) = if field == "" then fields else add fields field

-- `declaredFieldSet`.
unfoldable pub declared_field_set : Shape → Listing → List String
unfolding add_declared_list add_strings add_sort
declared_field_set s l =
    add_sort (add_strings (add_declared_list (add_declared_list [] s.columns) l.filters) l.search)
      l.default_sort

abbrev pub max_page : ℕ
max_page = 100000

abbrev pub max_page_size : ℕ
max_page_size = 100

-- `page` and `pageSize` of the query.
unfoldable pub page_of : Numeric → ℕ
page_of other = 1
page_of (whole n) = if ltb 0 n then min n max_page else 1

unfoldable pub page_size_of : Option Numeric → Option ℕ → ℕ
page_size_of requested configured =
    let fallback = min (or_else configured 20) max_page_size in
    elim (or_else requested (whole (or_else configured 20))) [
      | other ↦ fallback
      | whole n ↦ if ltb 0 n && leb n max_page_size then n else fallback
    ]

abbrev pub or_sort : Option (String × Bool) → Option (String × Bool) → Option (String × Bool)
or_sort none d = d
or_sort (some s) d = some s

abbrev pub readable_sort : List String → Option (String × Bool) → Option (String × Bool)
readable_sort readable none = none
readable_sort readable (some (field, down)) =
    if contains readable field then some (field, down) else none

abbrev pub has_any : List String → Bool
has_any [] = false
has_any (_ ∷ _) = true

-- The query of `list`, once the selection and the readable fields are resolved.
unfoldable pub list_query :
    Target
    → Listing
    → RequestContext
    → SearchParams
    → ListOptions
    → List String
    → List String
    → ListQuery
unfolding page_of page_size_of contains sanitize
list_query target l c params o select readable =
    let searched = keep (contains readable) l.search in
    record {
      context = c;
      params = sanitize params readable (has_any searched);
      filters = keep (λ (entry : String × Value). contains readable entry.0) o.filters;
      sort = readable_sort readable (or_sort o.sort l.default_sort);
      page = page_of o.page;
      page_size = page_size_of o.page_size l.page_size;
      search = if has_any searched then or_else o.search "" else "";
      select = select;
      search_fields = if has_any searched then some searched else none;
      soft_delete = soft_column target.soft_delete;
      include_deleted = is_some (soft_column target.soft_delete) && o.include_deleted;
      scope = scope_binding target.resource.scope c;
    }

-- `list` up to the call of the adapter.
unfoldable pub prepare_list :
    Config → Target → Listing → RequestContext → SearchParams → ListOptions → Throws ListQuery
unfolding authorize_read selected_fields declared_field_set resolve_readable list_query
prepare_list config target l c params o = do
  authorize_read config target c
  select ← selected_fields target.shape l c.caller o.select
  readable ← resolve_readable (declared_field_set target.shape l) target.shape.field_access c.caller
  ok (list_query target l c params o select readable)

-- `list`.
unfoldable pub list :
    (ListQuery → Throws Listed)
    → Config
    → Target
    → Listing
    → RequestContext
    → SearchParams
    → ListOptions
    → Throws Listed
unfolding prepare_list project_authorized_rows
list ask config target l c params o = do
  query ← prepare_list config target l c params o
  listed ← ask query
  rows ← project_authorized_rows target.shape listed.rows c.caller query.select
  ok (record listed { rows = rows })

-- The query of `get`.
abbrev pub item_query : Target → RequestContext → SearchParams → String → List String → ItemQuery
item_query target c params id select = record {
  context = c;
  params = params;
  id = id;
  select = select;
  scope = scope_binding target.resource.scope c;
}

-- `FlowpanelNotFoundError` where there is no row, else its projection.
unfoldable pub project_found : Shape → AccessContext → List String → Option Row → Throws Row
unfolding project_authorized_row
project_found s c select none = err (known (missing "Not found"))
project_found s c select (some row) = project_authorized_row s row c select

-- `get`.
unfoldable pub get :
    (ItemQuery → Throws (Option Row))
    → Config
    → Target
    → Listing
    → RequestContext
    → SearchParams
    → String
    → Option (List String)
    → Throws Row
unfolding authorize_read selected_fields project_found
get ask config target l c params id requested = do
  authorize_read config target c
  select ← selected_fields target.shape l c.caller requested
  found ← ask (item_query target c params id select)
  project_found target.shape c.caller select found
