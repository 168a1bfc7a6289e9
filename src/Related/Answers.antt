-- ===== src/Related/Answers.antt =====
-- What a related read answers, whatever adapter it asks.
use flowpanel.Base.{
  ℕ, String, true, false, not, ◌≡◌, sym, ◌∙◌, ap, subst, Option, none, some, List, [], ◌∷◌, ok, err,
  arith, map, any, All, if◌then◌else◌, Result-cases, Bool-cases, inl, inr, eq_iff, >>=-eq-ok,
  ok_inj, ◌>>=◌,
}
use flowpanel.Base.Text.{contains}
use flowpanel.Base.Dict.{lookup, keys}
use flowpanel.Base.Value.{Value, Row, Scope}
use flowpanel.Errors.{Throws, known, access}
use flowpanel.Guards.{Config, RequestContext}
use flowpanel.Rows.{resolve_readable, project_row}
use flowpanel.Rows.Projection.{resolve_readable_iff, project_row-some}
use flowpanel.Related.{
  is_access_error, Target, Options, Query, Listed, Page, Decision, nothing, ask, prepare,
  read_related_page, authorize_read, unless_denied, answer, page_of, lacks_value, scope_binding,
}
use flowpanel.Related.Counts.{
  read_related_count, count_direct, count_by, count_options, counted, count_where,
  assert_count_columns,
}
use flowpanel.Related.FailClosed.{May, IsSafe, prepare-IsSafe}

-- Every value that a row holds is one that the caller may read.
abbrev pub IsReadable : Target → RequestContext → Row → Type 0
IsReadable target c row = (k : String) (v : Value) → lookup k row ≡ some v → May target c k

unless_denied-some :
    {A : Type 0} (check : Throws (Unit {0})) (rest : Throws A) (a : A)
    → unless_denied check rest ≡ ok (some a)
    → (check ≡ ok tt) × (rest ≡ ok a)
unless_denied-some (ok _) (ok b) a e = ground (arith, e)
unless_denied-some (ok _) (err t) a e = ground (arith, e)
unless_denied-some (err t) rest a e = elim (Bool-cases (is_access_error t)) [
  | inl denied ↦ ground (arith, denied, e)
  | inr other ↦ ground (arith, other, e)
]

project_rows-IsReadable :
    (target : Target) (c : RequestContext) (fields : List String) (rows : List Row)
    → ((k : String) → contains fields k ≡ true → May target c k)
    → All (IsReadable target c) (map (λ row. project_row row fields) rows)
project_rows-IsReadable target c fields [] may = tt
project_rows-IsReadable target c fields (row ∷ rows) may = (
  λ k v e. may k (project_row-some row fields k v e).0,
  project_rows-IsReadable target c fields rows may,
)

module _ (list : Query → Throws Listed) (target : Target) (c : RequestContext)
    (opts : Options) where
  answer-IsReadable :
      (d : Decision) (page : Page)
      → IsSafe target c opts d
      → answer list opts d ≡ ok page
      → All (IsReadable target c) page.rows
  answer-IsReadable nothing page safe e =
      subst (λ p. All (IsReadable target c) p.rows) (ok_inj e) tt
  answer-IsReadable (ask q fields) page safe e =
      let (listed, _, made) = >>=-eq-ok (list q) (λ l. ok (page_of opts fields l)) e in
      subst (λ p. All (IsReadable target c) p.rows) (ok_inj made)
        (project_rows-IsReadable target c fields listed.rows safe.rows_readable)

  -- A related read that answers a page does so for a caller who passes the role, the scope and the
  -- read rule of the target, and every value in its rows is one that the caller may read, whatever
  -- the adapter returned.
  pub read_related_page-IsReadable :
      (config : Config) (page : Page)
      → read_related_page list config target c opts ≡ ok (some page)
      → (authorize_read config target c ≡ ok tt) × All (IsReadable target c) page.rows
  unfolding read_related_page
  read_related_page-IsReadable config page e =
      let (allowed, made) =
        unless_denied-some (authorize_read config target c)
          (prepare target c opts >>= answer list opts) page e in
      let (d, prepared, answered) = >>=-eq-ok (prepare target c opts) (answer list opts) made in
      (allowed, answer-IsReadable d page (prepare-IsSafe target c opts d prepared) answered)

  -- A caller who is refused learns that, and nothing else: the answer does not depend on the
  -- adapter, the options or the rows.
  pub read_related_page-denied :
      (config : Config) (message : String)
      → authorize_read config target c ≡ err (known (access message))
      → read_related_page list config target c opts ≡ ok none
  unfolding read_related_page
  read_related_page-denied config message denied = rw (denied, read_related_page)

-- A filter of a count that the caller may not read.
abbrev pub IsHidden : Target → RequestContext → Row → String → Type 0
IsHidden target c filters k = (contains (keys filters) k ≡ true) × (¬ May target c k)

any-missing :
    (readable ks : List String) (k : String)
    → contains readable k ≡ false
    → contains ks k ≡ true
    → any (λ j. not (contains readable j)) ks ≡ true
unfolding contains
any-missing readable [] k h e = cc
any-missing readable (j ∷ ks) k h e = ground (arith, eq_iff j k, any-missing readable ks k)

module _ (target : Target) (c : RequestContext) (filters : Row) (k : String)
    (hidden : IsHidden target c filters k) where
  answer-total :
      (list : Query → Throws Listed) (d : Decision) (page : Page)
      → IsSafe target c (count_options filters) d
      → answer list (count_options filters) d ≡ ok page
      → page.total ≡ 0
  answer-total list nothing page safe e = sym (ap (λ p. p.total) (ok_inj e))
  answer-total list (ask q fields) page safe e =
      absurd (hidden.1 (safe.filters_readable k hidden.0))

  count_direct-hidden :
      (direct : Row → Throws ℕ) (n : ℕ) → count_direct direct target c filters ≡ ok n → n ≡ 0
  unfolding count_direct
  count_direct-hidden direct n e =
      let fields = keys filters in
      let rest : List String → Throws ℕ = λ r.
        if any (λ j. not (contains r j)) fields
        then ok 0
        else direct (count_where target filters) in
      let (readable, resolved, made) =
        >>=-eq-ok (resolve_readable fields target.shape.field_access c.caller) rest e in
      elim (Bool-cases (contains readable k)) [
        | inl there ↦ absurd (
            hidden.1
              ((resolve_readable_iff fields target.shape.field_access c.caller readable k
                  resolved).0
                there).1)
        | inr missing ↦ sym (ok_inj (rw (any-missing readable fields k missing hidden.0) at made))
      ]

  page-hidden :
      (list : Query → Throws Listed) (config : Config) (page : Page)
      → read_related_page list config target c (count_options filters) ≡ ok (some page)
      → page.total ≡ 0
  unfolding read_related_page
  page-hidden list config page e =
      let opts = count_options filters in
      let (_, made) =
        unless_denied-some (authorize_read config target c)
          (prepare target c opts >>= answer list opts) page e in
      let (d, prepared, answered) = >>=-eq-ok (prepare target c opts) (answer list opts) made in
      answer-total list d page (prepare-IsSafe target c opts d prepared) answered

  counted-hidden :
      (list : Query → Throws Listed) (config : Config) (n : ℕ) (o : Option Page)
      → read_related_page list config target c (count_options filters) ≡ ok o
      → counted (ok o) ≡ ok (some n)
      → n ≡ 0
  counted-hidden list config n none read e = ground (arith, e)
  counted-hidden list config n (some page) read e =
      ground (arith, e, page-hidden list config page read)

  by_list-hidden :
      (list : Query → Throws Listed) (config : Config) (n : ℕ)
      → counted (read_related_page list config target c (count_options filters)) ≡ ok (some n)
      → n ≡ 0
  by_list-hidden list config n e =
      let page = read_related_page list config target c (count_options filters) in
      elim (Result-cases page) [
        | inr (t, failed) ↦ cc (ap counted failed, e)
        | inl (o, read) ↦ counted-hidden list config n o read (ap counted (sym read) ∙ e)
      ]

  count_by-hidden :
      (list : Query → Throws Listed) (config : Config) (n : ℕ) (direct : Option (Row → Throws ℕ))
      (scope : Option Scope)
      → count_by list config target c filters direct scope ≡ ok (some n)
      → n ≡ 0
  count_by-hidden list config n (some direct) none e =
      count_direct-hidden direct n
        (unless_denied-some (authorize_read config target c) (count_direct direct target c filters)
          n e).1
  count_by-hidden list config n (some direct) (some s) e = by_list-hidden list config n e
  count_by-hidden list config n none none e = by_list-hidden list config n e
  count_by-hidden list config n none (some s) e = by_list-hidden list config n e

  -- Whatever the adapter and on either of the two paths, a count by a field that the caller may not
  -- read answers no number other than 0.
  pub read_related_count-hidden :
      (list : Query → Throws Listed) (direct : Option (Row → Throws ℕ)) (config : Config) (n : ℕ)
      → read_related_count list direct config target c filters ≡ ok (some n)
      → n ≡ 0
  unfolding read_related_count
  read_related_count-hidden list direct config n e =
      let scope = scope_binding target.resource.scope c in
      let (_, _, checked) =
        >>=-eq-ok (assert_count_columns target.name (keys filters) target.columns)
          (λ _.
            if lacks_value filters
            then ok (some 0)
            else count_by list config target c filters direct scope)
          e in
      elim (Bool-cases (lacks_value filters)) [
        | inl lacking ↦ ground (arith, lacking, checked)
        | inr given ↦ count_by-hidden list config n direct scope (rw given at checked)
      ]
