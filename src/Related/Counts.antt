-- ===== src/Related/Counts.antt =====
-- `readRelatedCount` of packages/next/src/runtime/require-authorized.ts, with
-- packages/core/src/internal/count-where.ts: how many rows of another resource match.
use flowpanel.Base.{
  ℕ, String, true, false, not, ◌||◌, Option, none, some, List, [], ◌∷◌, ok, err, ◌>>=◌, ◌>>◌, any,
  if◌then◌else◌,
}
use Prim.Native.String.{◌++◌ as append}
use flowpanel.Base.Text.{contains}
use flowpanel.Base.Dict.{keys, insert}
use flowpanel.Base.Value.{str, Row, Scope}
use flowpanel.Errors.{Throws, Thrown, new_error}
use flowpanel.Guards.{Config, RequestContext}
use flowpanel.Rows.{resolve_readable}
use flowpanel.Related.{
  soft_column, Target, Options, Query, Listed, Page, authorize_read, lacks_value, scope_binding,
  is_nil, unless_denied, read_related_page,
}

unknown_column : String → String → Thrown
unknown_column name field = new_error (
    append "flowpanel: ctx.count(\"" (
      append name (
        append "\") filters by \""
          (append field "\", but the adapter reports no such column on that resource."))))

-- `assertCountWhereColumns`; the end of the message, with a suggestion and the known columns, is left
-- out.
unfoldable pub assert_count_columns : String → List String → List String → Throws (Unit {0})
unfolding unknown_column contains
assert_count_columns name [] columns = ok tt
assert_count_columns name (field ∷ fields) columns =
    let later = assert_count_columns name fields columns in
    if is_nil columns || contains columns field then later else err (unknown_column name field)

-- `{ ...onto, ...filters }`.
unfoldable pub merge : Row → Row → Row
unfolding insert
merge onto [] = onto
merge onto ((k, v) ∷ rest) = merge (insert k v onto) rest

abbrev pub count_options : Row → Options
count_options filters = record {
  filters = filters;
  sort = none;
  page = some 1;
  page_size = some 1;
  search = none;
  search_fields = [];
  extra_fields = [];
  include_deleted = false;
  count_only = true;
}

-- The filters of the adapter's `count`.
abbrev pub count_where : Target → Row → Row
count_where target filters = elim (soft_column target.soft_delete) [
  | none ↦ filters
  | some column ↦ merge ((column, str "__null__") ∷ []) filters
]

-- The part of `readRelatedCount` behind the checks, where the adapter counts itself.
unfoldable pub count_direct : (Row → Throws ℕ) → Target → RequestContext → Row → Throws ℕ
unfolding resolve_readable merge keys contains
count_direct direct target c filters = do
  readable ← resolve_readable (keys filters) target.shape.field_access c.caller
  if any (λ k. not (contains readable k)) (keys filters)
      then ok 0
      else direct (count_where target filters)

abbrev pub counted : Throws (Option Page) → Throws (Option ℕ)
counted page = page >>= λ p. ok (elim p [ none ↦ none | some q ↦ some q.total ])

abbrev pub count_by :
    (Query → Throws Listed)
    → Config
    → Target
    → RequestContext
    → Row
    → Option (Row → Throws ℕ)
    → Option Scope
    → Throws (Option ℕ)
count_by list config target c filters (some direct) none =
    unless_denied (authorize_read config target c) (count_direct direct target c filters)
count_by list config target c filters _ _ =
    counted (read_related_page list config target c (count_options filters))

-- `readRelatedCount`.
unfoldable pub read_related_count :
    (Query → Throws Listed)
    → Option (Row → Throws ℕ)
    → Config
    → Target
    → RequestContext
    → Row
    → Throws (Option ℕ)
unfolding assert_count_columns read_related_page count_direct
read_related_count list direct config target c filters = do
  assert_count_columns target.name (keys filters) target.columns
  if lacks_value filters
      then ok (some 0)
      else count_by list config target c filters direct (scope_binding target.resource.scope c)
