-- ===== src/Routing/Reaching.antt =====
-- Every handler of the POST table is reached by its own path, for resources whose name is not
-- reserved.
use flowpanel.Base.{String, Bool, ◌≡◌, ◌≢◌, sym, [], ◌∷◌, arith, if◌then◌else◌}
use flowpanel.Base.Text.{eq_of_ne}
use flowpanel.Base.Dict.{insert}
use flowpanel.Routing.{
  Params, handled, get, post, drawer, reference_search, drawer_action, row_action, bulk_action,
  import_rows, resource_create, inline_update, resource_update, restore, item, listing, not_found,
}

-- A path segment that stands for a resource or for a row.
abbrev pub IsName : String → Type 0
IsName r = (r ≢ "") × (r ≢ "drawer") × (r ≢ "dashboards")

abbrev pub of_row : String → String → Params
of_row r id = ("resource", r) ∷ ("id", id) ∷ []

module _ (registered : String → Bool) (r id : String) where
  -- The edit, inline update and restore of a row reach their handlers with the resource and the row
  -- of the path, for every resource with a name that routing does not claim and every row whose id
  -- is not "bulk-actions".
  pub post-row :
      IsName r
      → id ≢ ""
      → id ≢ "bulk-actions"
      → (post registered (r ∷ id ∷ "update" ∷ []) ≡ handled inline_update (of_row r id))
        × (post registered (r ∷ id ∷ "edit" ∷ []) ≡ handled resource_update (of_row r id))
        × (post registered (r ∷ id ∷ "restore" ∷ []) ≡ handled restore (of_row r id))
  unfolding post insert
  post-row (filled, not_drawer, not_dash) full other =
      let a = eq_of_ne r "" filled in
      let b = eq_of_ne id "" full in
      let c = eq_of_ne "bulk-actions" id (λ e. other (sym e)) in
      (ground (arith, a, b, c), ground (arith, a, b, c), ground (arith, a, b, c))

  -- The actions of a row, of a selection and of a drawer reach their handlers for every such
  -- resource, every row and every action key; so do the import and the create form.
  pub post-actions :
      (action : String)
      → IsName r
      → id ≢ ""
      → action ≢ ""
      → (post registered (r ∷ id ∷ "actions" ∷ action ∷ [])
          ≡ handled row_action (("resource", r) ∷ ("id", id) ∷ ("action", action) ∷ []))
        × (post registered (r ∷ "bulk-actions" ∷ action ∷ [])
            ≡ handled bulk_action (("resource", r) ∷ ("action", action) ∷ []))
        × (post registered ("drawer" ∷ r ∷ id ∷ "actions" ∷ action ∷ [])
            ≡ handled drawer_action (("resource", r) ∷ ("id", id) ∷ ("action", action) ∷ []))
        × (post registered (r ∷ "import" ∷ []) ≡ handled import_rows (("resource", r) ∷ []))
        × (post registered (r ∷ "create" ∷ []) ≡ handled resource_create (("resource", r) ∷ []))
  unfolding post insert
  post-actions action (filled, not_drawer, not_dash) full keyed =
      let a = eq_of_ne r "" filled in
      let b = eq_of_ne id "" full in
      let c = eq_of_ne action "" keyed in
      let d = eq_of_ne "dashboards" r (λ e. not_dash (sym e)) in
      (
        ground (arith, a, b, c, d),
        ground (arith, a, c),
        ground (arith, a, b, c),
        ground (arith, a),
        ground (arith, a),
      )

  -- A GET of a resource, of one of its rows, of a drawer and of a reference search each reach
  -- their own handler; a list is served for registered resources alone.
  pub get-resource :
      (field : String)
      → IsName r
      → id ≢ ""
      → field ≢ ""
      → (get registered (r ∷ []) ≡ (if registered r then listing r else not_found))
        × (get registered (r ∷ id ∷ []) ≡ item r id)
        × (get registered ("drawer" ∷ r ∷ id ∷ []) ≡ handled drawer (of_row r id))
        × (get registered (r ∷ "reference" ∷ field ∷ [])
            ≡ handled reference_search (("resource", r) ∷ ("field", field) ∷ []))
  unfolding get insert
  get-resource field (filled, not_drawer, not_dash) full named =
      let a = eq_of_ne r "" filled in
      let b = eq_of_ne id "" full in
      let c = eq_of_ne field "" named in
      let d = eq_of_ne "drawer" r (λ e. not_drawer (sym e)) in
      (ground (arith, a), ground (arith, a, b), ground (arith, a, b), ground (arith, a, c, d))
