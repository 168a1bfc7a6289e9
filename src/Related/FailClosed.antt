-- ===== src/Related/FailClosed.antt =====
-- What a related read cannot give away.
use flowpanel.Base.{
  String, Bool, true, false, not, ◌≡◌, refl, sym, ◌∙◌, subst, eq_iff, some, List, [], ◌∷◌, ok,
  arith, any, Option-cases, Bool-cases, inl, inr, >>=-eq-ok, ok_inj, ◌>>=◌,
}
use flowpanel.Base.Text.{contains, contains-keep}
use flowpanel.Base.Dict.{keys}
use flowpanel.Policy.Reading.{MayRead}
use flowpanel.Guards.{RequestContext}
use flowpanel.Rows.{resolve_readable, select_known, unique}
use flowpanel.Rows.Projection.{resolve_readable_iff, contains-unique}
use flowpanel.Related.{
  Target, Options, Query, Decision, nothing, ask, decide, prepare, touched, output_fields,
  lacks_value, keep_sort, query_of, fields_of, leaves_nothing,
}

abbrev pub May : Target → RequestContext → String → Type 0
May target c k = MayRead target.shape.field_access c.caller k

-- A query and the fields of its rows that touch nothing that the caller may not read, and drop no
-- filter.
pub record IsAuthorized (target : Target) (c : RequestContext) (opts : Options) (q : Query)
    (fields : List String) : Type 0 where
  pub filters_kept : q.filters ≡ opts.filters
  pub filters_given : lacks_value opts.filters ≡ false
  pub filters_readable : (k : String) → contains (keys opts.filters) k ≡ true → May target c k
  pub search_readable : (k : String) → contains q.search_fields k ≡ true → May target c k
  pub sort_readable : (k : String) (down : Bool) → q.sort ≡ some (k, down) → May target c k
  pub rows_readable : (k : String) → contains fields k ≡ true → May target c k
  pub select_within : (k : String) → contains q.select k ≡ true → contains fields k ≡ true

any-contains :
    (readable ks : List String) (k : String)
    → any (λ j. not (contains readable j)) ks ≡ false
    → contains ks k ≡ true
    → contains readable k ≡ true
unfolding contains
any-contains readable [] k h e = cc
any-contains readable (j ∷ ks) k h e = ground (arith, eq_iff j k, any-contains readable ks k)

module _ (target : Target) (c : RequestContext) (opts : Options) (readable : List String) where
  abbrev AllMay : Type 0
  AllMay = (k : String) → contains readable k ≡ true → May target c k

  keep_sort-readable :
      (k : String) (down : Bool)
      → keep_sort readable opts.sort ≡ some (k, down)
      → contains readable k ≡ true
  keep_sort-readable k down e = elim (Option-cases opts.sort) [
    | inl unsorted ↦ ground (arith, unsorted)
    | inr ((field, d), sorted) ↦ ground (arith, sorted)
  ]

  contains-fields_of :
      (k : String) → contains (fields_of target opts readable) k ≡ true → contains readable k ≡ true
  unfolding contains
  contains-fields_of k e =
      ground (arith, contains-keep (contains readable) (output_fields target opts) k)

  contains-select :
      (k : String)
      → contains (query_of target c opts readable).select k ≡ true
      → contains (fields_of target opts readable) k ≡ true
  unfolding select_known contains
  contains-select k e =
      let fields = fields_of target opts readable in
      ground
        (arith, contains-keep (contains target.columns) (unique fields) k, contains-unique fields k)

  query_of-IsAuthorized :
      lacks_value opts.filters ≡ false
      → AllMay
      → leaves_nothing opts readable ≡ false
      → IsAuthorized target c opts
          (query_of target c opts readable)
          (fields_of target opts readable)
  query_of-IsAuthorized given may some_left = record {
    filters_kept = refl;
    filters_given = given;
    filters_readable = λ k e. may k (any-contains readable (keys opts.filters) k (ground arith) e);
    search_readable =
        λ k e. may k (ground (arith, contains-keep (contains readable) opts.search_fields k));
    sort_readable = λ k down e. may k (keep_sort-readable k down e);
    rows_readable = λ k e. may k (contains-fields_of k e);
    select_within = contains-select;
  }

  decide_nothing : leaves_nothing opts readable ≡ true → decide target c opts readable ≡ nothing
  unfolding decide
  decide_nothing e = rw (e, decide)

  decide_asks :
      leaves_nothing opts readable ≡ false
      → decide target c opts readable
        ≡ ask (query_of target c opts readable) (fields_of target opts readable)
  unfolding decide
  decide_asks e = rw (e, decide)

-- A decision that asks nothing, or only what is authorized.
abbrev pub IsSafe : Target → RequestContext → Options → Decision → Type 0
IsSafe target c opts nothing = Unit
IsSafe target c opts (ask q fields) = IsAuthorized target c opts q fields

module _ (target : Target) (c : RequestContext) (opts : Options) where
  decide-IsSafe :
      (readable : List String)
      → lacks_value opts.filters ≡ false
      → AllMay target c opts readable
      → IsSafe target c opts (decide target c opts readable)
  decide-IsSafe readable given may = elim (Bool-cases (leaves_nothing opts readable)) [
    | inl none_left ↦
        subst (IsSafe target c opts) (sym (decide_nothing target c opts readable none_left)) tt
    | inr some_left ↦
        subst (IsSafe target c opts) (sym (decide_asks target c opts readable some_left))
          (query_of-IsAuthorized target c opts readable given may some_left)
  ]

  prepare_nothing : lacks_value opts.filters ≡ true → ok nothing ≡ prepare target c opts
  unfolding prepare
  prepare_nothing e = rw (e, prepare)

  prepare_goes_on :
      lacks_value opts.filters ≡ false
      → (resolve_readable (touched target opts) target.shape.field_access c.caller >>= λ readable.
          ok (decide target c opts readable))
        ≡ prepare target c opts
  unfolding prepare
  prepare_goes_on e = rw (e, prepare)

  pub prepare-IsSafe : (d : Decision) → prepare target c opts ≡ ok d → IsSafe target c opts d
  unfolding prepare
  prepare-IsSafe d e = elim (Bool-cases (lacks_value opts.filters)) [
    | inl lacking ↦ subst (IsSafe target c opts) (ok_inj (prepare_nothing lacking ∙ e)) tt
    | inr given ↦
        let (readable, resolved, decided) =
          >>=-eq-ok (resolve_readable (touched target opts) target.shape.field_access c.caller)
            (λ readable. ok (decide target c opts readable)) (prepare_goes_on given ∙ e) in
        subst (IsSafe target c opts) (ok_inj decided) (
          decide-IsSafe readable given (λ k h.
            ((resolve_readable_iff (touched target opts) target.shape.field_access c.caller readable
                k resolved).0
              h).1))
  ]

  -- Whatever a related read asks the adapter was decided without a field that the caller may not
  -- read: as a filter, for the search, for the order, or in the rows; and no filter is left out.
  pub prepare-IsAuthorized :
      (q : Query) (fields : List String)
      → prepare target c opts ≡ ok (ask q fields)
      → IsAuthorized target c opts q fields
  prepare-IsAuthorized q fields e = prepare-IsSafe (ask q fields) e
