-- ===== src/Related.antt =====
-- packages/next/src/runtime/require-authorized.ts: the reads of a resource other than the request's
-- own, with packages/next/src/runtime/scope-binding.ts.
-- The adapter is a parameter. The database handle, the date range, the search parameters and the
-- abort signal, which are only passed on, are left out.
pub mod Scopes
pub mod FailClosed
pub mod Counts
pub mod Answers
use flowpanel.Base.{
  ℕ, String, Bool, true, false, not, ◌&&◌, ◌||◌, ◌==◌, Option, none, some, List, [], ◌∷◌, ◌++◌, ok,
  err, ◌>>=◌, ◌>>◌, keep, any, map, length, or_else, is_some, if◌then◌else◌,
}
use Prim.Native.String.{◌++◌ as append}
use flowpanel.Base.Text.{contains, add}
use flowpanel.Base.Dict.{keys, insert}
use flowpanel.Base.Value.{Value, undefined, str, Row, Scope}
use flowpanel.Errors.{Throws, Thrown, known, access, new_error}
use flowpanel.Policy.{read, predicate, bypass, ResourceScope}
use flowpanel.Guards.{Config, RequestContext, Resource, require_authorized, guard_operation}
use flowpanel.Rows.{
  Shape, declared_row_fields, add_all, resolve_readable, select_known, project_row,
}

-- The resource that is read, with the names of its columns and of the column of its soft deletion.
pub record Target : Type 0 where
  pub name : String
  pub resource : Resource
  pub shape : Shape
  pub columns : List String
  pub soft_delete : Option String

-- `RelatedReadOptions`; the sort is a field and whether it descends.
pub record Options : Type 0 where
  pub filters : Row
  pub sort : Option (String × Bool)
  pub page : Option ℕ
  pub page_size : Option ℕ
  pub search : Option String
  pub search_fields : List String
  pub extra_fields : List String
  pub include_deleted : Bool
  pub count_only : Bool

-- What the adapter's `list` is asked. `scope` is the tenant scope that the resource's predicate is
-- bound to, if it has one.
pub record Query : Type 0 where
  pub filters : Row
  pub sort : Option (String × Bool)
  pub page : ℕ
  pub page_size : ℕ
  pub search : String
  pub search_fields : List String
  pub select : List String
  pub soft_delete : Option String
  pub include_deleted : Bool
  pub scope : Option Scope

pub record Listed : Type 0 where
  pub rows : List Row
  pub total : Option ℕ
  pub page : Option ℕ
  pub page_size : Option ℕ

-- `RelatedPage`.
pub record Page : Type 0 where
  pub rows : List Row
  pub total : ℕ
  pub page : ℕ
  pub page_size : ℕ

-- The role, the scope declaration and the read rule of the target.
unfoldable pub authorize_read : Config → Target → RequestContext → Throws (Unit {0})
unfolding require_authorized
authorize_read config target c = do
  require_authorized config target.resource c
  guard_operation target.resource c (some read)

-- `err instanceof FlowpanelAccessError`.
abbrev pub is_access_error : Thrown → Bool
is_access_error (known (access m)) = true
is_access_error _ = false

abbrev pub is_undefined : String × Value → Bool
is_undefined (k, undefined) = true
is_undefined (k, v) = false

-- `Object.values(filters).some((value) => value === undefined)`.
abbrev pub lacks_value : Row → Bool
lacks_value filters = any is_undefined filters

-- The column of soft deletions: an empty one is none.
abbrev pub soft_column : Option String → Option String
soft_column none = none
soft_column (some column) = if column == "" then none else some column

-- `scopeBinding`.
abbrev pub scope_binding : Option ResourceScope → RequestContext → Option Scope
scope_binding (some predicate) c = some c.scope
scope_binding _ c = none

abbrev pub sort_fields : Option (String × Bool) → List String
sort_fields none = []
sort_fields (some (field, down)) = if field == "" then [] else field ∷ []

abbrev pub keep_sort : List String → Option (String × Bool) → Option (String × Bool)
keep_sort readable none = none
keep_sort readable (some (field, down)) =
    if contains readable field then some (field, down) else none

-- What comes of a read that is allowed: nothing, or a query and the fields of its rows.
pub data Decision : Type 0 where
  nothing : Decision
  ask : Query → List String → Decision

abbrev pub output_fields : Target → Options → List String
output_fields target opts = add_all (declared_row_fields target.shape) opts.extra_fields

-- Every field that the read touches.
abbrev pub touched : Target → Options → List String
touched target opts =
    output_fields target opts
    ++ (keys opts.filters ++ (opts.search_fields ++ sort_fields opts.sort))

abbrev pub is_nil : List String → Bool
is_nil [] = true
is_nil (_ ∷ _) = false

-- `searchFields`, `projectedFields` and `listCtx`, once the readable fields are resolved.
abbrev pub search_of : Options → List String → List String
search_of opts readable = keep (contains readable) opts.search_fields

abbrev pub fields_of : Target → Options → List String → List String
fields_of target opts readable =
    if opts.count_only then [] else keep (contains readable) (output_fields target opts)

abbrev pub query_of : Target → RequestContext → Options → List String → Query
query_of target c opts readable = record {
  filters = opts.filters;
  sort = keep_sort readable opts.sort;
  page = or_else opts.page 1;
  page_size = or_else opts.page_size 20;
  search = if is_nil (search_of opts readable) then "" else or_else opts.search "";
  search_fields = search_of opts readable;
  select =
      if opts.count_only then [] else select_known (fields_of target opts readable) target.columns;
  soft_delete = soft_column target.soft_delete;
  include_deleted = is_some (soft_column target.soft_delete) && opts.include_deleted;
  scope = scope_binding target.resource.scope c;
}

-- A filter that may not be read, or search fields of which none may, leaves nothing to read.
abbrev pub leaves_nothing : Options → List String → Bool
leaves_nothing opts readable =
    any (λ k. not (contains readable k)) (keys opts.filters)
    || not (is_nil opts.search_fields) && is_nil (search_of opts readable)

-- The part of `readRelatedPage` between the resolved fields and the query.
unfoldable pub decide : Target → RequestContext → Options → List String → Decision
unfolding contains keys declared_row_fields add_all select_known
decide target c opts readable =
    if leaves_nothing opts readable
    then nothing
    else ask (query_of target c opts readable) (fields_of target opts readable)

-- The part between the checks and the query.
unfoldable pub prepare : Target → RequestContext → Options → Throws Decision
unfolding resolve_readable decide
prepare target c opts = if lacks_value opts.filters then ok nothing else do
  readable ← resolve_readable (touched target opts) target.shape.field_access c.caller
  ok (decide target c opts readable)

abbrev pub no_rows : Options → Page
no_rows opts = record {
  rows = [];
  total = 0;
  page = or_else opts.page 1;
  page_size = or_else opts.page_size 20;
}

-- The page of what the adapter answered.
abbrev pub page_of : Options → List String → Listed → Page
page_of opts fields l = record {
  rows = map (λ row. project_row row fields) l.rows;
  total = or_else l.total (length l.rows);
  page = or_else l.page (or_else opts.page 1);
  page_size = or_else l.page_size (or_else opts.page_size 20);
}

abbrev pub answer : (Query → Throws Listed) → Options → Decision → Throws Page
answer list opts nothing = ok (no_rows opts)
answer list opts (ask query fields) = do listed ← list query; ok (page_of opts fields listed)

-- `none` where the caller may not read the target; other errors go through.
abbrev pub unless_denied : {A : Type 0} → Throws (Unit {0}) → Throws A → Throws (Option A)
unless_denied (err t) rest = if is_access_error t then ok none else err t
unless_denied (ok _) rest = rest >>= λ a. ok (some a)

-- `readRelatedPage`.
unfoldable pub read_related_page :
    (Query → Throws Listed) → Config → Target → RequestContext → Options → Throws (Option Page)
unfolding authorize_read prepare
read_related_page list config target c opts =
    unless_denied (authorize_read config target c) (prepare target c opts >>= answer list opts)

-- `readRelatedRows`.
unfoldable pub read_related_rows :
    (Query → Throws Listed)
    → Config
    → Target
    → RequestContext
    → Options
    → Throws (Option (List Row))
unfolding read_related_page
read_related_rows list config target c opts = do
  page ← read_related_page list config target c opts
  ok (elim page [ none ↦ none | some p ↦ some p.rows ])
