-- ===== src/Controller/Queries.antt =====
-- What a list of the resource controller asks the adapter.
use flowpanel.Base.{
  ℕ, String, Bool, true, ◌≤◌, ◌≡◌, refl, is_some, subst, eq_iff, Option, none, some, List, [], ◌∷◌,
  ok, arith, inl, inr, Bool-cases, >>=-eq-ok, ok_inj, keep, ltb, length, if◌then◌else◌,
}
use flowpanel.Base.Text.{contains, contains-keep}
use flowpanel.Base.Dict.{keys}
use flowpanel.Base.Value.{Value, Row}
use flowpanel.Policy.{AccessContext, filter_readable}
use flowpanel.Policy.Reading.{MayRead, filter_readable_iff}
use flowpanel.Guards.{Config, RequestContext}
use flowpanel.Rows.{Shape, resolve_readable}
use flowpanel.Rows.Projection.{resolve_readable_iff}
use flowpanel.Related.{Target, authorize_read}
use flowpanel.Related.Scopes.{IsTenant, scope_binding-IsTenant}
use flowpanel.Controller.{
  chosen, has_any, ListOptions, Listing, ListQuery, Numeric, whole, other, exposure, check_exposed,
  selected_fields, declared_field_set, page_of, page_size_of, max_page, max_page_size, max_columns,
  list_query, prepare_list, readable_sort, or_sort,
}
use flowpanel.Controller.Params.{SearchParams, sanitize, IsSanitized, sanitize-IsSanitized}

pub page_of_bounds : (n : Numeric) → (1 ≤ page_of n) × (page_of n ≤ max_page)
unfolding page_of
page_of_bounds other = omega arith
page_of_bounds (whole n) = ground arith

pub page_size_of-le :
    (n : Option Numeric) (configured : Option ℕ) → page_size_of n configured ≤ max_page_size
unfolding page_size_of
page_size_of-le none none = ground arith
page_size_of-le none (some k) = ground arith
page_size_of-le (some other) none = ground arith
page_size_of-le (some other) (some k) = ground arith
page_size_of-le (some (whole n)) none = ground arith
page_size_of-le (some (whole n)) (some k) = ground arith

check_exposed_lem :
    (allowed fields : List String) (k : String)
    → check_exposed allowed fields ≡ ok tt
    → contains fields k ≡ true
    → contains allowed k ≡ true
unfolding check_exposed contains
check_exposed_lem allowed [] k h e = cc
check_exposed_lem allowed (f ∷ fs) k h e =
    ground (arith, eq_iff f k, check_exposed_lem allowed fs k)

-- A selection that passes holds exposed fields alone, all of which the caller may read.
pub selected_fields_lem :
    (s : Shape) (l : Listing) (c : AccessContext) (requested : Option (List String))
    (select : List String) (k : String)
    → selected_fields s l c requested ≡ ok select
    → contains select k ≡ true
    → (contains (exposure s l) k ≡ true) × MayRead s.field_access c k
unfolding selected_fields
selected_fields_lem s l c requested select k h e =
    let picked = chosen (exposure s l) requested in
    elim (Bool-cases (ltb max_columns (length picked))) [
      | inl many ↦ ground (arith, many)
      | inr fits ↦
          let (_, checked, filtered) =
            >>=-eq-ok (check_exposed (exposure s l) picked)
              (λ _. filter_readable picked s.field_access c) (rw fits at h) in
          let (at, may) = (filter_readable_iff s.field_access c picked select k filtered).0 e in
          (check_exposed_lem (exposure s l) picked k checked at, may)
    ]

readable_sort-eq-some :
    (readable : List String) (o : Option (String × Bool)) (field : String) (down : Bool)
    → readable_sort readable o ≡ some (field, down)
    → contains readable field ≡ true
readable_sort-eq-some readable none field down e = cc
readable_sort-eq-some readable (some (f, d)) field down e = ground arith

readable_filters :
    (readable : List String) (row : Row) (k : String)
    → contains (keys (keep (λ (entry : String × Value). contains readable entry.0) row)) k ≡ true
    → contains readable k ≡ true
unfolding contains keys
readable_filters readable [] k h = cc
readable_filters readable ((j, v) ∷ row) k h =
    ground (arith, eq_iff j k, readable_filters readable row k)

search_fields-readable :
    (readable search ks : List String) (k : String)
    → (if has_any (keep (contains readable) search)
        then some (keep (contains readable) search)
        else none)
      ≡ some ks
    → contains ks k ≡ true
    → contains readable k ≡ true
search_fields-readable readable search ks k e h =
    ground (arith, contains-keep (contains readable) search k)

searches :
    (searched : List String)
    → has_any searched ≡ is_some (if has_any searched then some searched else none)
searches [] = refl
searches (k ∷ ks) = refl

-- A query of the request, under the scope of the resource, that reaches no field which the caller may
-- not read: neither what it selects, nor what it filters, sorts or searches by, nor, in the address
-- that it carries, a filter, the first `sort`, or a search where the resource has nothing to search.
pub record IsAuthorized (target : Target) (l : Listing) (c : RequestContext) (params : SearchParams)
    (q : ListQuery) : Type 0 where
  pub context : q.context ≡ c
  pub scoped : IsTenant target.resource.scope c q.scope
  pub select_exposed :
      (k : String) → contains q.select k ≡ true → contains (exposure target.shape l) k ≡ true
  pub select_readable :
      (k : String) → contains q.select k ≡ true → MayRead target.shape.field_access c.caller k
  pub filters_readable :
      (k : String)
      → contains (keys q.filters) k ≡ true
      → MayRead target.shape.field_access c.caller k
  pub sort_readable :
      (k : String) (down : Bool)
      → q.sort ≡ some (k, down)
      → MayRead target.shape.field_access c.caller k
  pub search_readable :
      (ks : List String) (k : String)
      → q.search_fields ≡ some ks
      → contains ks k ≡ true
      → MayRead target.shape.field_access c.caller k
  pub search_off : q.search_fields ≡ none → q.search ≡ ""
  pub params_readable :
      (readable : List String) × IsSanitized params readable (is_some q.search_fields) q.params
      × ((k : String) → contains readable k ≡ true → MayRead target.shape.field_access c.caller k)
  pub page_from : 1 ≤ q.page
  pub page_to : q.page ≤ max_page
  pub size_to : q.page_size ≤ max_page_size

module _ (config : Config) (target : Target) (l : Listing) (c : RequestContext)
    (params : SearchParams) (o : ListOptions) where
  list_query-IsAuthorized :
      (select readable : List String)
      → ((k : String)
          → contains select k ≡ true
          → (contains (exposure target.shape l) k ≡ true)
            × MayRead target.shape.field_access c.caller k)
      → ((k : String) → contains readable k ≡ true → MayRead target.shape.field_access c.caller k)
      → IsAuthorized target l c params (list_query target l c params o select readable)
  unfolding list_query
  list_query-IsAuthorized select readable picked may =
      let searched = keep (contains readable) l.search in
      record {
        context = refl;
        scoped = scope_binding-IsTenant target.resource.scope c;
        select_exposed = λ k h. (picked k h).0;
        select_readable = λ k h. (picked k h).1;
        filters_readable = λ k h. may k (readable_filters readable o.filters k h);
        sort_readable = λ k down e.
            may k (readable_sort-eq-some readable (or_sort o.sort l.default_sort) k down e);
        search_readable = λ ks k e h. may k (search_fields-readable readable l.search ks k e h);
        search_off = λ e. ground arith;
        params_readable = (
          readable,
          subst (λ on. IsSanitized params readable on (sanitize params readable (has_any searched)))
              (searches searched) (sanitize-IsSanitized params readable (has_any searched)),
          may,
        );
        page_from = (page_of_bounds o.page).0;
        page_to = (page_of_bounds o.page).1;
        size_to = page_size_of-le o.page_size l.page_size;
      }

  -- Whatever page, size, selection, filters, sort, search and address a list is asked with: if it gets
  -- to the adapter at all, the caller passed the checks of the resource, and the query is authorized.
  pub prepare_list-IsAuthorized :
      (q : ListQuery)
      → prepare_list config target l c params o ≡ ok q
      → (authorize_read config target c ≡ ok tt) × IsAuthorized target l c params q
  unfolding prepare_list
  prepare_list-IsAuthorized q h =
      let (_, allowed, h1) = >>=-eq-ok (authorize_read config target c) _ h in
      let (select, selected, h2) =
        >>=-eq-ok (selected_fields target.shape l c.caller o.select) _ h1 in
      let (readable, resolved, h3) =
        >>=-eq-ok
          (resolve_readable (declared_field_set target.shape l) target.shape.field_access c.caller)
          _ h2 in
      (
        allowed,
        subst (IsAuthorized target l c params) (ok_inj h3) (
            list_query-IsAuthorized select readable
              (λ k. selected_fields_lem target.shape l c.caller o.select select k selected)
              (λ k e.
                ((resolve_readable_iff (declared_field_set target.shape l) target.shape.field_access
                    c.caller readable k resolved).0
                  e).1)),
      )
