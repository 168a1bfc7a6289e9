-- ===== src/Writes/Actions.antt =====
-- `create`, `update` and `delete` of `makeActions` in packages/next/src/actions/resource-actions.ts,
-- with read-row.ts and delete-row.ts of packages/next/src/runtime. The request context is the one the
-- caller built, or the outcome of building it.
use flowpanel.Base.{
  String, ◌==◌, Option, none, some, List, [], ◌∷◌, ok, err, ◌>>=◌, ◌>>◌, or_else, if◌then◌else◌,
}
use flowpanel.Base.Dict.{lookup}
use flowpanel.Base.Value.{Value, undefined, null, Row}
use flowpanel.Errors.{Throws}
use flowpanel.Policy.{create, update, delete}
use flowpanel.Guards.{RequestContext}
use flowpanel.Writes.Fields.{
  schemas_for, declared_form_fields, creating, updating, assert_resource_writable_input,
}
use flowpanel.Writes.Filling.{apply_field_defaults}
use flowpanel.Writes.Aftermath.{
  Effects, Change, created, updated, deleted, base_audit, run_post_commit_effects,
}
use flowpanel.Writes.Setup.{
  Admin, Entity, State, Mutation, bind_scope, build_href, begin_write, check_values, not_found,
  found,
}

module _ {D : Type 0} (a : Admin D) (e : Entity) where
  -- `readRow`.
  unfoldable pub read_row : String → RequestContext → D → Throws (Option Row)
  unfolding bind_scope
  read_row id c db =
      a.adapter.get (record { context = c; id = id; binding = bind_scope a.guard e.guarded c }) db

  unfoldable pub mutation : RequestContext → Option String → Row → Mutation
  unfolding bind_scope
  mutation c id input = record {
    context = c;
    input = input;
    id = id;
    soft_delete = none;
    binding = bind_scope a.guard e.guarded c;
  }

  -- `create`, up to the adapter.
  unfoldable pub prepare_create : RequestContext → Value → Throws Mutation
  unfolding begin_write assert_resource_writable_input apply_field_defaults check_values schemas_for
      declared_form_fields
  prepare_create c input = do
    begin_write a.guard e.guarded c create e.create_disabled "Create is disabled for this resource."
    let fields = declared_form_fields e.create_fields e.update_fields creating
    safe ← assert_resource_writable_input e.columns e.field_access fields input none c
    filled ← apply_field_defaults e.default_values fields safe c
    data_ ← check_values a.labels (schemas_for e.user_schema e.inferred).create fields filled
    ok (mutation c none data_)

  -- `update`, up to the adapter's write; the current row is read from the database.
  unfoldable pub prepare_update : String → RequestContext → Value → D → Throws Mutation
  unfolding begin_write read_row assert_resource_writable_input check_values schemas_for
      declared_form_fields
  prepare_update id c input db = do
    begin_write a.guard e.guarded c update e.update_disabled "Update is disabled for this resource."
    let fields = declared_form_fields e.create_fields e.update_fields updating
    row ← read_row id c db
    current ← found row
    safe ← assert_resource_writable_input e.columns e.field_access fields input (some current) c
    data_ ← check_values a.labels (schemas_for e.user_schema e.inferred).update fields safe
    ok (mutation c (some id) data_)

  -- The mutation of `deleteRow`.
  unfoldable pub delete_mutation : RequestContext → String → Mutation
  unfolding mutation
  delete_mutation c id = record (mutation c (some id) []) {
    soft_delete = elim e.soft_delete [
      | none ↦ none
      | some column ↦ if column == "" then none else some column
    ];
  }

  -- `delete`, up to the adapter's deletion.
  unfoldable pub prepare_delete : String → RequestContext → D → Throws Mutation
  unfolding begin_write read_row delete_mutation
  prepare_delete id c db = do
    begin_write a.guard e.guarded c delete e.delete_disabled "Delete is disabled for this resource."
    row ← read_row id c db
    current ← found row
    ok (delete_mutation c id)

  -- The audit event and the notices of a write that the database has taken.
  unfoldable pub announce :
      RequestContext
      → Change
      → (operation : String) (target : Option String) (paths : List String) → Effects
      → Effects
  unfolding base_audit run_post_commit_effects
  announce c change operation target paths effects =
      run_post_commit_effects a.outside a.publishes e.name change target paths
        (base_audit a.outside e.audits e.name operation target c effects)

  -- The identifier of the created row, as a text.
  unfoldable pub created_id : Option Row → Option String
  unfolding lookup
  created_id none = none
  created_id (some row) = elim (lookup (or_else e.row_key "id") row) [
    | none ↦ none
    | some v ↦ elim v [ undefined ↦ none | null ↦ none | other ↦ some (a.outside.to_text other) ]
  ]

  unfoldable pub list_path : String
  unfolding build_href
  list_path = build_href a (e.name ∷ [])

  unfoldable pub row_path : String → String
  unfolding build_href
  row_path id = build_href a (e.name ∷ (id ∷ []))

  unfoldable pub commit_create :
      RequestContext → Effects → Throws (Option Row) × D → Throws (Option Row) × State D
  unfolding announce created_id build_href
  commit_create c effects (err t, db) = (err t, record { db = db; effects = effects })
  commit_create c effects (ok row, db) = (
    ok row,
    record {
      db = db;
      effects = announce c created "create" (created_id row) (list_path ∷ []) effects;
    },
  )

  unfoldable pub commit_update :
      String → RequestContext → Effects → Throws (Option Row) × D → Throws Row × State D
  unfolding announce build_href
  commit_update id c effects (err t, db) = (err t, record { db = db; effects = effects })
  commit_update id c effects (ok none, db) = (err not_found, record { db = db; effects = effects })
  commit_update id c effects (ok (some row), db) = (
    ok row,
    record {
      db = db;
      effects = announce c updated "update" (some id) (list_path ∷ (row_path id ∷ [])) effects;
    },
  )

  unfoldable pub commit_delete :
      String → RequestContext → Effects → Throws (Unit {0}) × D → Throws (Unit {0}) × State D
  unfolding announce build_href
  commit_delete id c effects (err t, db) = (err t, record { db = db; effects = effects })
  commit_delete id c effects (ok _, db) = (
    ok tt,
    record { db = db; effects = announce c deleted "delete" (some id) (list_path ∷ []) effects },
  )

  -- The adapter's write, where the checks answered, and what follows it.
  abbrev pub write :
      {A B : Type 0}
      → (Mutation → D → Throws A × D)
      → (Throws A × D → Throws B × State D)
      → State D
      → Throws Mutation
      → Throws B × State D
  write run commit s (err t) = (err t, s)
  write run commit s (ok m) = commit (run m s.db)

  -- `create`, `update` and `delete` of `makeActions`.
  unfoldable pub create_row :
      Throws RequestContext → Value → State D → Throws (Option Row) × State D
  unfolding prepare_create commit_create
  create_row context input s = elim context [
    | err t ↦ (err t, s)
    | ok c ↦ write a.adapter.create (commit_create c s.effects) s (prepare_create c input)
  ]

  unfoldable pub update_row :
      String → Throws RequestContext → Value → State D → Throws Row × State D
  unfolding prepare_update commit_update
  update_row id context input s = elim context [
    | err t ↦ (err t, s)
    | ok c ↦
        write a.adapter.update (commit_update id c s.effects) s (prepare_update id c input s.db)
  ]

  unfoldable pub delete_row : String → Throws RequestContext → State D → Throws (Unit {0}) × State D
  unfolding prepare_delete commit_delete
  delete_row id context s = elim context [
    | err t ↦ (err t, s)
    | ok c ↦ write a.adapter.delete (commit_delete id c s.effects) s (prepare_delete id c s.db)
  ]
