-- ===== src/Controller/Params.antt =====
-- `sanitizeReadableListSearchParams` of packages/next/src/runtime/readable-fields.ts: the controls of a
-- list that are left in the address that an adapter sees.
use flowpanel.Base.{
  String, Bool, true, false, not, ◌||◌, ◌&&◌, ◌==◌, ◌≡◌, ◌≢◌, refl, ap, ◌∙◌, if_elim, eq_iff,
  Option, none, some, List, [], ◌∷◌, keep, if◌then◌else◌, eqb, arith, Bool-cases, inl, inr,
  Option-cases,
}
use Prim.Native.Char.{code}
use Prim.Native.String.{len, slice}
use text.Mathlib.Text.{starts_with}
use flowpanel.Base.Text.{contains}
use flowpanel.Base.Dict.{lookup, keys}

-- `URLSearchParams`: the parameters in order; a name may stand several times.
abbrev pub SearchParams : Type 0
SearchParams = List (String × String)

-- `params.delete(name)`.
unfoldable pub delete_param : String → SearchParams → SearchParams
delete_param name params = keep (λ (p : String × String). not (p.0 == name)) params

-- The field that a parameter filters by.
unfoldable pub filtered_field : String → Option String
filtered_field name =
    if starts_with name "f_"
    then some (slice name 2 (len name))
    else if starts_with name "filter."
    then some (slice name 7 (len name))
    else none

-- `sort.split(":", 1)[0]`.
unfoldable pub before_colon : String → String
before_colon String.[] = ""
before_colon (String.◌∷◌ c s) =
    let rest = before_colon s in if eqb (code c) b':' then "" else String.◌∷◌ c rest

abbrev pub is_denied : List String → Option String → Bool
is_denied readable none = false
is_denied readable (some field) = not (contains readable field)

-- The loop over `[...params.keys()]`.
unfoldable pub drop_filters : List String → List String → SearchParams → SearchParams
unfolding filtered_field delete_param contains
drop_filters readable [] params = params
drop_filters readable (name ∷ names) params =
    drop_filters readable names
      (if is_denied readable (filtered_field name) then delete_param name params else params)

abbrev drop_sort : List String → Option String → SearchParams → SearchParams
unfolding before_colon delete_param contains
drop_sort readable none params = params
drop_sort readable (some sort) params =
    if before_colon sort == ""
    then params
    else if contains readable (before_colon sort)
    then params
    else delete_param "sort" params

-- `sanitizeReadableListSearchParams`.
unfoldable pub sanitize : SearchParams → List String → Bool → SearchParams
unfolding drop_filters drop_sort lookup keys delete_param
sanitize source readable searchable =
    let filtered = drop_filters readable (keys source) source in
    let sorted = drop_sort readable (lookup "sort" filtered) filtered in
    if searchable then sorted else delete_param "search" (delete_param "q" sorted)

-- What `sanitize` leaves is of the source, and no name that filters by an unreadable field is left.
keys-keep :
    (p : String × String → Bool) (params : SearchParams) (name : String)
    → contains (keys (keep p params)) name ≡ true
    → contains (keys params) name ≡ true
unfolding contains keys
keys-keep p [] name h = h
keys-keep p ((n, v) ∷ params) name h = ground (arith, keys-keep p params name)

keys-delete_param :
    (dropped : String) (params : SearchParams) (name : String)
    → contains (keys (delete_param dropped params)) name ≡ true
    → ((dropped == name) ≡ false) × (contains (keys params) name ≡ true)
unfolding delete_param contains keys
keys-delete_param dropped [] name h = cc
keys-delete_param dropped ((n, v) ∷ params) name h = ground (
  arith,
  eq_iff n dropped,
  eq_iff dropped name,
  eq_iff n name,
  keys-delete_param dropped params name,
)

drop_filters-keys :
    (readable names : List String) (params : SearchParams) (name : String)
    → contains (keys (drop_filters readable names params)) name ≡ true
    → contains (keys params) name ≡ true
unfolding drop_filters
drop_filters-keys readable [] params name h = h
drop_filters-keys readable (n ∷ names) params name h =
    elim (Bool-cases (is_denied readable (filtered_field n))) [
      | inl denied ↦
          (keys-delete_param n params name
            (drop_filters-keys readable names (delete_param n params) name (rw denied at h))).1
      | inr allowed ↦ drop_filters-keys readable names params name (rw allowed at h)
    ]

drop_filters-allowed :
    (readable names : List String) (params : SearchParams) (name field : String)
    → contains (keys (drop_filters readable names params)) name ≡ true
    → contains names name ≡ true
    → filtered_field name ≡ some field
    → contains readable field ≡ true
unfolding drop_filters contains
drop_filters-allowed readable [] params name field h at f = cc
drop_filters-allowed readable (n ∷ names) params name field h at f =
    elim (Bool-cases (is_denied readable (filtered_field n))) [
      | inl denied ↦
          let left = rw denied at h in
          let gone =
            keys-delete_param n params name
              (drop_filters-keys readable names (delete_param n params) name left) in
          drop_filters-allowed readable names (delete_param n params) name field left
            (ground (arith, gone)) f
      | inr allowed ↦ elim (Bool-cases (n == name)) [
        | inl same ↦
            let e : filtered_field n ≡ some field = rw ((eq_iff n name).0 same) f in
            ground (arith, e, allowed)
        | inr apart ↦
            drop_filters-allowed readable names params name field (rw allowed at h)
              (ground (arith, apart)) f
      ]
    ]

lookup-delete_param :
    (dropped name : String) (params : SearchParams)
    → lookup name (delete_param dropped params)
      ≡ (if dropped == name then none else lookup name params)
unfolding lookup delete_param
lookup-delete_param dropped name [] = ground arith
lookup-delete_param dropped name ((n, v) ∷ params) = ground (
  arith,
  eq_iff n dropped,
  eq_iff n name,
  eq_iff dropped name,
  lookup-delete_param dropped name params,
)

-- Some of the parameters of the source, in their order.
abbrev pub IsPart : SearchParams → SearchParams → Type 0
IsPart source params = (p : String × String → Bool) × (params ≡ keep p source)

-- What is left of the parameters are some of those of the source, in their order; all that filter do so
-- by readable fields, the first `sort`, which is the one that `get` gives, is by one, and none searches
-- unless that is enabled. A parameter of any other name is not touched.
pub record IsSanitized (source : SearchParams) (readable : List String) (searchable : Bool)
    (params : SearchParams) : Type 0 where
  pub within : IsPart source params
  pub filters :
      (name field : String)
      → contains (keys params) name ≡ true
      → filtered_field name ≡ some field
      → contains readable field ≡ true
  pub sort :
      (v : String)
      → lookup "sort" params ≡ some v
      → (before_colon v == "") || contains readable (before_colon v) ≡ true
  pub search : searchable ≡ false → (lookup "q" params ≡ none) × (lookup "search" params ≡ none)
  pub others :
      (name : String)
      → filtered_field name ≡ none
      → name ≢ "sort"
      → name ≢ "q"
      → name ≢ "search"
      → lookup name params ≡ lookup name source

keep-keep :
    (p q : String × String → Bool) (params : SearchParams)
    → keep p (keep q params) ≡ keep (λ entry. q entry && p entry) params
keep-keep p q [] = refl
keep-keep p q (entry ∷ params) = ground (arith, keep-keep p q params)

delete_param-IsPart :
    (dropped : String) (source params : SearchParams)
    → IsPart source params
    → IsPart source (delete_param dropped params)
unfolding delete_param
delete_param-IsPart dropped source params (p, kept) =
    let test : String × String → Bool = λ entry. not (entry.0 == dropped) in
    ((λ entry. p entry && test entry), ap (keep test) kept ∙ keep-keep test p source)

drop_filters-IsPart :
    (readable names : List String) (source params : SearchParams)
    → IsPart source params
    → IsPart source (drop_filters readable names params)
unfolding drop_filters
drop_filters-IsPart readable [] source params part = part
drop_filters-IsPart readable (n ∷ names) source params part =
    elim (Bool-cases (is_denied readable (filtered_field n))) [
      | inl denied ↦ rw denied (
          drop_filters-IsPart readable names source (delete_param n params)
            (delete_param-IsPart n source params part))
      | inr allowed ↦ rw allowed (drop_filters-IsPart readable names source params part)
    ]

drop_sort-IsPart :
    (readable : List String) (o : Option String) (source params : SearchParams)
    → IsPart source params
    → IsPart source (drop_sort readable o params)
unfolding drop_sort
drop_sort-IsPart readable none source params part = part
drop_sort-IsPart readable (some v) source params part =
    if_elim (IsPart source) (before_colon v == "") _ _ (λ h. part)
      (λ h.
        if_elim (IsPart source) (contains readable (before_colon v)) _ _ (λ g. part)
          (λ g. delete_param-IsPart "sort" source params part))

keep_all : (params : SearchParams) → params ≡ keep (λ entry. true) params
keep_all [] = refl
keep_all (entry ∷ params) = ap (λ rest. entry ∷ rest) (keep_all params)

drop_filters-others :
    (readable names : List String) (params : SearchParams) (name : String)
    → filtered_field name ≡ none
    → lookup name (drop_filters readable names params) ≡ lookup name params
unfolding drop_filters
drop_filters-others readable [] params name plain = refl
drop_filters-others readable (n ∷ names) params name plain =
    elim (Bool-cases (is_denied readable (filtered_field n))) [
      | inr allowed ↦ rw allowed (drop_filters-others readable names params name plain)
      | inl denied ↦
          let apart : (n == name) ≡ false = elim (Bool-cases (n == name)) [
            | inr differs ↦ differs
            | inl same ↦
                let e : filtered_field n ≡ none = rw ((eq_iff n name).0 same) plain in
                absurd (ground (arith, e, denied))
          ] in
          rw denied (
            drop_filters-others readable names (delete_param n params) name plain
            ∙ ground (arith, apart, lookup-delete_param n name params))
    ]

drop_sort-others :
    (readable : List String) (o : Option String) (params : SearchParams) (name : String)
    → name ≢ "sort"
    → lookup name (drop_sort readable o params) ≡ lookup name params
unfolding drop_sort
drop_sort-others readable none params name apart = refl
drop_sort-others readable (some v) params name apart =
    ground (arith, apart, eq_iff "sort" name, lookup-delete_param "sort" name params)

drop_sort-keys :
    (readable : List String) (o : Option String) (params : SearchParams) (name : String)
    → contains (keys (drop_sort readable o params)) name ≡ true
    → contains (keys params) name ≡ true
unfolding drop_sort
drop_sort-keys readable none params name h = h
drop_sort-keys readable (some v) params name h =
    ground (arith, keys-delete_param "sort" params name)

drop_sort-sort :
    (readable : List String) (params : SearchParams) (v : String)
    → lookup "sort" (drop_sort readable (lookup "sort" params) params) ≡ some v
    → (before_colon v == "") || contains readable (before_colon v) ≡ true
unfolding drop_sort
drop_sort-sort readable params v h = elim (Option-cases (lookup "sort" params)) [
  | inl absent ↦ ground (arith, absent)
  | inr (w, there) ↦ ground (arith, there, lookup-delete_param "sort" "sort" params)
]

pub sanitize-IsSanitized :
    (source : SearchParams) (readable : List String) (searchable : Bool)
    → IsSanitized source readable searchable (sanitize source readable searchable)
unfolding sanitize
sanitize-IsSanitized source readable searchable =
    let filtered : SearchParams = drop_filters readable (keys source) source in
    let sorted : SearchParams = drop_sort readable (lookup "sort" filtered) filtered in
    let bare : SearchParams = delete_param "search" (delete_param "q" sorted) in
    let in_filtered : (name : String)
        → contains (keys sorted) name ≡ true
        → contains (keys filtered) name ≡ true =
      λ name h. drop_sort-keys readable (lookup "sort" filtered) filtered name h in
    let in_source : (name : String)
        → contains (keys sorted) name ≡ true
        → contains (keys source) name ≡ true =
      λ name h. drop_filters-keys readable (keys source) source name (in_filtered name h) in
    let allowed : (name field : String)
        → contains (keys sorted) name ≡ true
        → filtered_field name ≡ some field
        → contains readable field ≡ true =
      λ name field h f.
        drop_filters-allowed readable (keys source) source name field (in_filtered name h)
          (in_source name h) f in
    let in_sorted : (name : String)
        → contains (keys bare) name ≡ true
        → contains (keys sorted) name ≡ true =
      λ name h.
        (keys-delete_param "q" sorted name
          (keys-delete_param "search" (delete_param "q" sorted) name h).1).1 in
    let part : IsPart source sorted =
      drop_sort-IsPart readable (lookup "sort" filtered) source filtered (
        drop_filters-IsPart readable (keys source) source source
          ((λ entry. true), keep_all source)) in
    let same : (name : String)
        → filtered_field name ≡ none
        → name ≢ "sort"
        → lookup name sorted ≡ lookup name source =
      λ name plain apart.
        drop_sort-others readable (lookup "sort" filtered) filtered name apart
        ∙ drop_filters-others readable (keys source) source name plain in
    elim (Bool-cases searchable) [
      | inl on ↦ rw on (record {
        within = part;
        others = λ name plain s q f. same name plain s;
        filters = allowed;
        sort = drop_sort-sort readable filtered;
        search = λ off. cc;
      })
      | inr off ↦ rw off (record {
        within = delete_param-IsPart "search" source _ (delete_param-IsPart "q" source sorted part);
        others = λ name plain s q f. ground (
          arith,
          eq_iff "search" name,
          eq_iff "q" name,
          q,
          f,
          lookup-delete_param "search" name (delete_param "q" sorted),
          lookup-delete_param "q" name sorted,
          same name plain s,
        );
        filters = λ name field h f. allowed name field (in_sorted name h) f;
        sort = λ v h. drop_sort-sort readable filtered v (
            ground (
              arith,
              h,
              lookup-delete_param "search" "sort" (delete_param "q" sorted),
              lookup-delete_param "q" "sort" sorted,
            ));
        search = λ e. (
          ground (
            arith,
            lookup-delete_param "search" "q" (delete_param "q" sorted),
            lookup-delete_param "q" "q" sorted,
          ),
          ground (arith, lookup-delete_param "search" "search" (delete_param "q" sorted)),
        );
      })
    ]
