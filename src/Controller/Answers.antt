-- ===== src/Controller/Answers.antt =====
-- What the reads of the resource controller answer.
use flowpanel.Base.{
  String, true, ◌≡◌, ◌↔◌, ◌||◌, ◌∙◌, subst, ap, Option, some, List, [], ◌∷◌, ok, >>=-eq-ok, ok_inj,
  Option-cases, inl, inr, arith,
}
use flowpanel.Base.Text.{contains}
use flowpanel.Base.Dict.{lookup}
use flowpanel.Base.Value.{Value, Row, Scope}
use flowpanel.Errors.{Throws}
use flowpanel.Policy.{AccessContext}
use flowpanel.Policy.Reading.{MayRead, filter_readable_iff}
use flowpanel.Guards.{Config, RequestContext}
use flowpanel.Rows.{
  Shape, declared_row_fields, add_all, project_row, resolve_row_projection, project_authorized_row,
}
use flowpanel.Rows.Projection.{lookup-project_row, contains-add_all}
use flowpanel.Related.{Target, Listed, authorize_read, scope_binding}
use flowpanel.Related.Scopes.{IsTenant, scope_binding-IsTenant}
use flowpanel.Controller.{
  Listing, ListQuery, ItemQuery, exposure, selected_fields, get, item_query, project_found,
}
use flowpanel.Controller.Params.{SearchParams}
use flowpanel.Controller.Queries.{IsAuthorized, selected_fields_lem}

-- A row as it leaves the server: the fields that the resource declares or that were selected, and that the
-- caller may read, with the values of the row of the adapter, and nothing else.
abbrev pub IsCut : Shape → AccessContext → List String → Row → Row → Type 0
IsCut s c select row out =
    (k : String) (v : Value)
    → (lookup k out ≡ some v) ↔ (
        (contains (declared_row_fields s) k || contains select k ≡ true)
        × MayRead s.field_access c k
        × (lookup k row ≡ some v))

-- The rows that were answered, one for each row of the adapter and in their order.
abbrev pub AreCut : Shape → AccessContext → List String → List Row → List Row → Type 0
AreCut s c select [] [] = Unit {0}
AreCut s c select (row ∷ rows) (out ∷ outs) = IsCut s c select row out × AreCut s c select rows outs
AreCut s c select [] (out ∷ outs) = ⊥
AreCut s c select (row ∷ rows) [] = ⊥

module _ (s : Shape) (c : AccessContext) (select readable : List String)
    (resolved : resolve_row_projection s c select ≡ ok readable) where
  project_row-IsCut : (row : Row) → IsCut s c select row (project_row row readable)
  unfolding resolve_row_projection
  project_row-IsCut row k v = ground (
    arith,
    lookup-project_row row readable k,
    filter_readable_iff s.field_access c (add_all (declared_row_fields s) select) readable k
        resolved,
    contains-add_all (declared_row_fields s) select k,
  )

project_authorized_row-IsCut :
    (s : Shape) (row out : Row) (c : AccessContext) (select : List String)
    → project_authorized_row s row c select ≡ ok out
    → IsCut s c select row out
unfolding project_authorized_row
project_authorized_row-IsCut s row out c select e =
    let (readable, resolved, projected) =
      >>=-eq-ok (resolve_row_projection s c select) (λ readable. ok (project_row row readable)) e in
    subst (IsCut s c select row) (ok_inj projected)
      (project_row-IsCut s c select readable resolved row)

module _ (config : Config) (target : Target) (l : Listing) (c : RequestContext)
    (params : SearchParams) where
  -- What `list` answers is what the adapter answered to an authorized query: its total, page and size,
  -- and its rows, each cut to the fields that the caller may read.
  pub record IsAnswer (ask : ListQuery → Throws Listed) (out : Listed) : Type 0 where
    pub query : ListQuery
    pub listed : Listed
    pub allowed : authorize_read config target c ≡ ok tt
    pub authorized : IsAuthorized target l c params query
    pub asked : ask query ≡ ok listed
    pub same_total : out.total ≡ listed.total
    pub same_page : out.page ≡ listed.page
    pub same_page_size : out.page_size ≡ listed.page_size
    pub rows_cut : AreCut target.shape c.caller query.select listed.rows out.rows

  -- What `get` answers is the row that the adapter found for the identifier, under the scope of the
  -- request where the resource declares a predicate, cut to the fields that the caller may read.
  pub record IsItem (ask : ItemQuery → Throws (Option Row)) (id : String) (out : Row) : Type 0 where
    pub select : List String
    pub row : Row
    pub allowed : authorize_read config target c ≡ ok tt
    pub exposed :
        (k : String) → contains select k ≡ true → contains (exposure target.shape l) k ≡ true
    pub scope : Option Scope
    pub scoped : IsTenant target.resource.scope c scope
    pub found :
        ask (record { context = c; params = params; id = id; select = select; scope = scope })
        ≡ ok (some row)
    pub selected_readable :
        (k : String) → contains select k ≡ true → MayRead target.shape.field_access c.caller k
    pub cut : IsCut target.shape c.caller select row out

  -- A row that is answered was found for the identifier by a caller who passed the checks of the resource,
  -- under the scope of the request where the resource declares a predicate and under none otherwise; the
  -- selection holds exposed fields that the caller may read, and the answer exactly the declared and
  -- selected fields of the row that the caller may read.
  pub get-IsItem :
      (ask : ItemQuery → Throws (Option Row)) (id : String) (requested : Option (List String))
      (out : Row)
      → get ask config target l c params id requested ≡ ok out
      → IsItem ask id out
  unfolding get project_found
  get-IsItem ask id requested out e =
      let (_, allowed, e1) = >>=-eq-ok (authorize_read config target c) _ e in
      let (select, selected, e2) =
        >>=-eq-ok (selected_fields target.shape l c.caller requested) _ e1 in
      let (found, asked, e3) = >>=-eq-ok (ask (item_query target c params id select)) _ e2 in
      elim (Option-cases found) [
        | inl absent ↦ absurd (ground (arith, absent, e3))
        | inr (row, there) ↦
            let projected : project_authorized_row target.shape row c.caller select ≡ ok out =
              rw there at e3 in
            record {
              select = select;
              row = row;
              allowed = allowed;
              exposed = λ k h.
                  (selected_fields_lem target.shape l c.caller requested select k selected h).0;
              scope = scope_binding target.resource.scope c;
              scoped = scope_binding-IsTenant target.resource.scope c;
              found = asked ∙ ap ok there;
              selected_readable = λ k h.
                  (selected_fields_lem target.shape l c.caller requested select k selected h).1;
              cut = project_authorized_row-IsCut target.shape row out c.caller select projected;
            }
      ]
