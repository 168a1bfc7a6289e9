-- ===== src/Rows.antt =====
-- packages/next/src/runtime/project-row.ts and `resolveReadableFieldSet` of readable-fields.ts: which
-- fields of a row leave the server.
pub mod Projection
use flowpanel.Base.{
  String, Bool, true, false, not, ◌==◌, Option, none, some, List, [], ◌∷◌, ◌++◌, ok, err, ◌>>=◌,
  keep, map, or_else, if◌then◌else◌,
}
use flowpanel.Base.Text.{contains, add}
use flowpanel.Base.Dict.{lookup, insert, keys}
use flowpanel.Base.Value.{Value, undefined, null, str, obj, Row, props}
use flowpanel.Errors.{Throws}
use flowpanel.Policy.{AccessContext, Policies, filter_readable}

-- `a ?? b` on properties.
abbrev or_nullish : Option Value → Option Value → Option Value
or_nullish (some undefined) b = b
or_nullish (some null) b = b
or_nullish (some v) b = some v
or_nullish none b = b

add_named : List String → Option Value → List String
unfolding add
add_named fields (some (str s)) = if s == "" then fields else add fields s
add_named fields _ = fields

-- `addField`.
unfoldable pub add_field : List String → Value → List String
unfolding add_named lookup
add_field fields (str s) = add_named fields (some (str s))
add_field fields (obj ps) =
    add_named fields (or_nullish (lookup "field" (props ps)) (lookup "name" (props ps)))
add_field fields _ = fields

-- `addFieldList`.
unfoldable pub add_field_list : List String → List Value → List String
unfolding add_field
add_field_list fields [] = fields
add_field_list fields (entry ∷ entries) = add_field_list (add_field fields entry) entries

-- What of a resource's options says which fields its rows have.
pub record Shape : Type 0 where
  pub columns : List Value
  pub expose : List Value
  pub row_key : Option String
  pub field_access : Policies

-- `declaredRowFields`.
unfoldable pub declared_row_fields : Shape → List String
unfolding add_field_list add
declared_row_fields s =
    add (add_field_list (add_field_list [] s.columns) s.expose) (or_else s.row_key "id")

-- `fields.add(field)` for each field of a sequence.
unfoldable pub add_all : List String → List String → List String
unfolding add
add_all fields [] = fields
add_all fields (k ∷ ks) = add_all (add fields k) ks

-- `[...new Set(fields)]`.
unfoldable pub unique : List String → List String
unfolding add_all
unique fields = add_all [] fields

-- `selectKnownFields`, of the names of the columns.
unfoldable pub select_known : List String → List String → List String
unfolding unique contains
select_known fields columns = keep (contains columns) (unique fields)

-- `resolveReadableFieldSet`.
unfoldable pub resolve_readable : List String → Policies → AccessContext → Throws (List String)
unfolding unique filter_readable
resolve_readable fields policies c = filter_readable (unique fields) policies c

put : String → Option Value → Row → Row
unfolding insert
put field none out = out
put field (some v) out = insert field v out

project_onto : Row → List String → Row → Row
unfolding put
project_onto row [] out = out
project_onto row (field ∷ fields) out = project_onto row fields (put field (lookup field row) out)

-- `projectRowFields`.
unfoldable pub project_row : Row → List String → Row
unfolding project_onto
project_row row readable = project_onto row readable []

-- `resolveRowProjection`.
unfoldable pub resolve_row_projection : Shape → AccessContext → List String → Throws (List String)
unfolding declared_row_fields add_all filter_readable
resolve_row_projection s c extra =
    filter_readable (add_all (declared_row_fields s) extra) s.field_access c

-- `projectAuthorizedRow` and `projectAuthorizedRows`.
unfoldable pub project_authorized_row : Shape → Row → AccessContext → List String → Throws Row
unfolding resolve_row_projection project_row
project_authorized_row s row c extra = do
  readable ← resolve_row_projection s c extra
  ok (project_row row readable)

unfoldable pub project_authorized_rows :
    Shape → List Row → AccessContext → List String → Throws (List Row)
unfolding resolve_row_projection project_row
project_authorized_rows s rows c extra = do
  readable ← resolve_row_projection s c extra
  ok (map (λ row. project_row row readable) rows)
