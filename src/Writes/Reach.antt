-- ===== src/Writes/Reach.antt =====
-- Which row a write reaches: one that the caller's scope shows.
use flowpanel.Base.{
  String, ◌≡◌, ap, subst, [], Option, none, some, ok, >>=-eq-ok, ok_inj, ◌>>=◌, ◌∙◌,
}
use flowpanel.Base.Value.{Row}
use flowpanel.Errors.{Throws}
use flowpanel.Policy.{create, update, delete}
use flowpanel.Guards.{RequestContext}
use flowpanel.Writes.Fields.{
  assert_resource_writable_input, declared_form_fields, creating, updating, schemas_for,
}
use flowpanel.Writes.Filling.{apply_field_defaults}
use flowpanel.Writes.Actions.{
  delete_mutation, read_row, prepare_create, prepare_update, prepare_delete, mutation,
}
use flowpanel.Writes.Setup.{Admin, Entity, Mutation, begin_write, found, check_values}
use flowpanel.Writes.Scopes.{IsBound, Shows, read_row-Shows, mutation-IsBound}
use flowpanel.Writes.Permission.{Call, create_call, update_call, delete_call, prepare}

pub found-some : (row : Option Row) (current : Row) → found row ≡ ok current → row ≡ some current
found-some none current same = cc
found-some (some row) current same = ap some (ok_inj same)

module _ {D : Type 0} (a : Admin D) (e : Entity) where
  -- The row of an update or a deletion is there, as the adapter shows it in the caller's scope.
  abbrev pub Sees : Call → RequestContext → D → Type 0
  Sees (create_call input) c db = Unit {0}
  Sees (update_call id input) c db = (row : Row) × Shows a e id c db row
  Sees (delete_call id) c db = (row : Row) × Shows a e id c db row

  abbrev pub id_of : Call → Option String
  id_of (create_call input) = none
  id_of (update_call id input) = some id
  id_of (delete_call id) = some id

  bound :
      (call : Call) (c : RequestContext) (input : Row) (soft_delete : Option String) (m : Mutation)
      → ◌≡◌ {A = Throws Mutation}
          (ok (record (mutation a e c (id_of call) input) { soft_delete = soft_delete }))
          (ok m)
      → IsBound a.guard e.guarded c (id_of call) m
  bound call c input soft_delete m same =
      subst (IsBound a.guard e.guarded c (id_of call)) (ok_inj same)
        (mutation-IsBound a e c (id_of call) input soft_delete)

  reads :
      {B : Type 0} (id : String) (c : RequestContext) (db : D) (next : Row → Throws B) (out : B)
      → (read_row a e id c db >>= λ row. found row >>= next) ≡ ok out
      → (row : Row) × (read_row a e id c db ≡ ok (some row)) × (next row ≡ ok out)
  reads id c db next out same =
      let (row, read, later) = >>=-eq-ok (read_row a e id c db) _ same in
      let (current, there, rest) = >>=-eq-ok (found row) next later in
      (current, read ∙ ap ok (found-some row current there), rest)

  -- A call that passes its checks reaches the database with the caller's own scope and identifier,
  -- and an update or a deletion only after the adapter has shown the row in this scope.
  pub prepare-Sees :
      (call : Call) (c : RequestContext) (db : D) (m : Mutation)
      → prepare a e call c db ≡ ok m
      → Sees call c db × IsBound a.guard e.guarded c (id_of call) m
  unfolding prepare prepare_create prepare_update prepare_delete mutation delete_mutation
  prepare-Sees (create_call input) c db m same =
      let begun = >>=-eq-ok (begin_write a.guard e.guarded c create e.create_disabled _) _ same in
      let fields = declared_form_fields e.create_fields e.update_fields creating in
      let (safe, _, filling) =
        >>=-eq-ok (assert_resource_writable_input e.columns e.field_access fields input none c) _
          begun.2 in
      let (filled, _, checked) =
        >>=-eq-ok (apply_field_defaults e.default_values fields safe c) _ filling in
      let (data_, _, done) =
        >>=-eq-ok
          (check_values a.labels (schemas_for e.user_schema e.inferred).create fields filled) _
          checked in
      (tt, bound (create_call input) c data_ none m done)
  prepare-Sees (update_call id input) c db m same =
      let begun = >>=-eq-ok (begin_write a.guard e.guarded c update e.update_disabled _) _ same in
      let (row, read, later) = reads id c db _ m begun.2 in
      let fields = declared_form_fields e.create_fields e.update_fields updating in
      let (safe, _, checked) =
        >>=-eq-ok
          (assert_resource_writable_input e.columns e.field_access fields input (some row) c) _
          later in
      let (data_, _, done) =
        >>=-eq-ok (check_values a.labels (schemas_for e.user_schema e.inferred).update fields safe)
          _ checked in
      ((row, read_row-Shows a e _ c db row read), bound (update_call id input) c data_ none m done)
  prepare-Sees (delete_call id) c db m same =
      let begun = >>=-eq-ok (begin_write a.guard e.guarded c delete e.delete_disabled _) _ same in
      let (row, read, done) = reads id c db _ m begun.2 in
      ((row, read_row-Shows a e _ c db row read), bound (delete_call id) c [] _ m done)
