-- ===== src/Rows/Projection.antt =====
-- What a projected row holds.
use flowpanel.Base.{
  String, true, ◌≡◌, ◌↔◌, refl, sym, ◌∙◌, ap, ◌==◌, eq_iff, ◌||◌, Option, none, some, List, [], ◌∷◌,
  ok, arith, if◌then◌else◌, Option-cases, inl, inr, >>=-eq-ok, ok_inj,
}
use flowpanel.Base.Text.{contains, add, contains-append}
use flowpanel.Base.Dict.{lookup, lookup-insert}
use flowpanel.Base.Value.{Value, Row}
use flowpanel.Policy.{AccessContext, Policies}
use flowpanel.Policy.Reading.{MayRead, filter_readable_iff}
use flowpanel.Rows.{
  Shape, declared_row_fields, add_all, unique, put, project_onto, project_row, resolve_readable,
  resolve_row_projection, project_authorized_row,
}

pub contains-add :
    (xs : List String) (x k : String) → contains (add xs x) k ≡ (contains xs k || x == k)
unfolding add contains
contains-add xs x k = ground (arith, eq_iff x k, contains-append xs (x ∷ []) k)

pub contains-add_all :
    (xs ys : List String) (k : String)
    → contains (add_all xs ys) k ≡ (contains xs k || contains ys k)
unfolding add_all contains
contains-add_all xs [] k = ground arith
contains-add_all xs (y ∷ ys) k =
    ground (arith, contains-add_all (add xs y) ys k, contains-add xs y k)

pub contains-unique : (xs : List String) (k : String) → contains (unique xs) k ≡ contains xs k
unfolding unique contains
contains-unique xs k = contains-add_all [] xs k

-- A field set that is resolved holds exactly the requested fields that the caller may read.
pub resolve_readable_iff :
    (fields : List String) (policies : Policies) (c : AccessContext) (out : List String)
    (k : String)
    → resolve_readable fields policies c ≡ ok out
    → (contains out k ≡ true) ↔ ((contains fields k ≡ true) × MayRead policies c k)
unfolding resolve_readable
resolve_readable_iff fields policies c out k e =
    ground (arith, filter_readable_iff policies c (unique fields) out k e, contains-unique fields k)

abbrev first_of : Option Value → Option Value → Option Value
first_of none o = o
first_of (some v) o = some v

put-lookup :
    (field : String) (o : Option Value) (out : Row) (k : String)
    → lookup k (put field o out) ≡ (if field == k then first_of o (lookup k out) else lookup k out)
unfolding put
put-lookup field none out k = ground arith
put-lookup field (some v) out k = lookup-insert field k v out

project_onto-lookup :
    (row : Row) (fields : List String) (out : Row) (k : String)
    → lookup k (project_onto row fields out)
      ≡ (if contains fields k then first_of (lookup k row) (lookup k out) else lookup k out)
unfolding project_onto put contains
project_onto-lookup row [] out k = refl
project_onto-lookup row (field ∷ fields) out k = elim (Option-cases (lookup k row)) [
  | inl absent ↦ ground (
    arith,
    absent,
    eq_iff field k,
    project_onto-lookup row fields (put field (lookup field row) out) k,
    put-lookup field (lookup field row) out k,
  )
  | inr (v, there) ↦ ground (
    arith,
    there,
    eq_iff field k,
    project_onto-lookup row fields (put field (lookup field row) out) k,
    put-lookup field (lookup field row) out k,
  )
]

-- A projected row holds the fields of the projection with the values of the row, and no other.
pub lookup-project_row :
    (row : Row) (readable : List String) (k : String)
    → lookup k (project_row row readable) ≡ (if contains readable k then lookup k row else none)
unfolding project_row lookup
lookup-project_row row readable k = elim (Option-cases (lookup k row)) [
  | inl absent ↦ ground (arith, absent, project_onto-lookup row readable [] k)
  | inr (v, there) ↦ ground (arith, there, project_onto-lookup row readable [] k)
]

pub project_row-some :
    (row : Row) (readable : List String) (k : String) (v : Value)
    → lookup k (project_row row readable) ≡ some v
    → (contains readable k ≡ true) × (lookup k row ≡ some v)
project_row-some row readable k v found = ground (arith, lookup-project_row row readable k)

-- The values of a field in a row that leaves the server: the field is declared by the resource or
-- asked for by the server itself, the caller may read it, and the value is the one of the row.
pub project_authorized_row-lookup :
    (s : Shape) (row out : Row) (c : AccessContext) (extra : List String) (k : String) (v : Value)
    → project_authorized_row s row c extra ≡ ok out
    → lookup k out ≡ some v
    → (contains (declared_row_fields s) k || contains extra k ≡ true)
      × MayRead s.field_access c k
      × (lookup k row ≡ some v)
unfolding project_authorized_row resolve_row_projection
project_authorized_row-lookup s row out c extra k v e there =
    let (readable, resolved, projected) =
      >>=-eq-ok (resolve_row_projection s c extra) (λ readable. ok (project_row row readable)) e in
    let found : lookup k (project_row row readable) ≡ some v =
      ap (lookup k) (ok_inj projected) ∙ there in
    let (within, held) = project_row-some row readable k v found in
    let readable_iff =
      filter_readable_iff s.field_access c (add_all (declared_row_fields s) extra) readable k
        resolved in
    let (asked, may) = readable_iff.0 within in
    (sym (contains-add_all (declared_row_fields s) extra k) ∙ asked, may, held)
