-- ===== src/Inline/Guarded.antt =====
-- What an inline update has passed before it writes.
use flowpanel.Base.{
  String, Bool, true, false, ◌≡◌, refl, ap, ◌∙◌, ◌⊎◌, inl, inr, Option, none, some, Option-cases,
  List, Result, ok, err, >>=-eq-ok, Result-cases, Bool-cases, ok_inj, arith,
}
use flowpanel.Base.Dict.{lookup}
use flowpanel.Base.Value.{Value, obj, prop, end, Row}
use flowpanel.Guards.{Platform, Request, RequestContext, World, build_request_context}
use flowpanel.Guards.Admission.{Admitted, with_guards-Admitted}
use flowpanel.RequestBody.{BodyError}
use flowpanel.Writes.{
  Admin, Entity, State, Schema, Issue, updating, declared_form_fields, schemas_for, read_row,
  assert_resource_writable_input, get,
}
use flowpanel.RowActions.Guarded.{finish-app}
use flowpanel.Inline.{
  stop, set, is_editable, with_field, field_of, parse_field, check_row, after_schema, prepare_field,
  prepare, inline_update, inline_spec, inline_update_route,
}

module _ {D : Type 0} (is_same : Value → Value → Bool) (a : Admin D) (e : Entity)
    (editable : List (Option String × Bool)) (pick : Schema → String → Option Schema) where
  -- The body names an editable column; the value is what the schema made of the one that was sent; the
  -- row is there, as the caller's scope shows it; and the policies of the fields admit the value.
  pub record Reaches (id : String) (c : RequestContext) (body : Result BodyError Row) (db : D)
      (field : String) (value : Value) (existing : Row) : Type 0 where
    pub sent : Row
    pub sent-eq : body ≡ ok sent
    pub named : field_of (lookup "field" sent) ≡ some field
    pub editable_column : is_editable editable field ≡ true
    pub parsed :
        parse_field
          (pick (schemas_for e.user_schema e.inferred).update field)
          field
          (get "value" sent)
        ≡ ok (ok value)
    pub seen : read_row a e id c db ≡ ok (some existing)
    pub safe : Row
    pub writable :
        assert_resource_writable_input e.columns e.field_access
          (with_field field (declared_form_fields e.create_fields e.update_fields updating))
          (obj (prop field value end))
          (some existing)
          c
        ≡ ok safe

  abbrev Writable : RequestContext → String → Value → Row → Type 0
  Writable c field value existing =
      (safe : Row) × (assert_resource_writable_input e.columns e.field_access
          (with_field field (declared_form_fields e.create_fields e.update_fields updating))
          (obj (prop field value end)) (some existing) c
        ≡ ok safe)

  set_inj :
      (f : String) (v : Value) (row : Row) (g : String) (w : Value) (other : Row)
      → set f v row ≡ set g w other
      → (f ≡ g) × (v ≡ w) × (row ≡ other)
  set_inj f v row g w other h = ground arith

  check_row-set :
      (field : String) (value : Value) (c : RequestContext) (o : Option Row) (f : String)
      (v : Value) (row : Row)
      → check_row is_same a e editable pick field value c o ≡ ok (set f v row)
      → (field ≡ f) × (value ≡ v) × (o ≡ some row) × Writable c f v row
  unfolding check_row
  check_row-set field value c none f v row h = ground arith
  check_row-set field value c (some existing) f v row h =
      let fields =
        with_field field (declared_form_fields e.create_fields e.update_fields updating) in
      let (safe, accepted, last) =
        >>=-eq-ok
          (assert_resource_writable_input e.columns e.field_access fields
            (obj (prop field value end)) (some existing) c)
          (λ _. ok (set field value existing)) h in
      let (same_field, same_value, same_row) = set_inj field value existing f v row (ok_inj last) in
      (
        same_field,
        same_value,
        ap some same_row,
        rw (← same_field, ← same_value, ← same_row) (safe, accepted),
      )

  from_outcome :
      (id : String) (c : RequestContext) (sent : Row) (db : D) (f : String) (v : Value) (row : Row)
      (field : String)
      → field_of (lookup "field" sent) ≡ some field
      → is_editable editable field ≡ true
      → (outcome : Result (List Issue) Value)
      → parse_field
          (pick (schemas_for e.user_schema e.inferred).update field)
          field
          (get "value" sent)
        ≡ ok outcome
      → after_schema is_same a e editable pick field id c db outcome ≡ ok (set f v row)
      → Reaches id c (ok sent) db f v row
  unfolding after_schema
  from_outcome id c sent db f v row field named free (err issues) parsed h = ground arith
  from_outcome id c sent db f v row field named free (ok value) parsed h =
      let (o, seen, h2) =
        >>=-eq-ok (read_row a e id c db) (check_row is_same a e editable pick field value c) h in
      let (same_field, same_value, there, (safe, writable)) =
        check_row-set field value c o f v row h2 in
      record {
        sent = sent;
        sent-eq = refl;
        named = named ∙ ap some same_field;
        editable_column = rw (← same_field) free;
        parsed = rw (← same_field, ← same_value) parsed;
        seen = seen ∙ ap ok there;
        safe = safe;
        writable = writable;
      }

  prepare-set :
      (id : String) (c : RequestContext) (body : Result BodyError Row) (db : D) (f : String)
      (v : Value) (row : Row)
      → prepare is_same a e editable pick id c body db ≡ ok (set f v row)
      → Reaches id c body db f v row
  unfolding prepare prepare_field after_schema
  prepare-set id c (err reason) db f v row h = ground arith
  prepare-set id c (ok sent) db f v row h = elim (Option-cases (field_of (lookup "field" sent))) [
    | inl unnamed ↦ ground (arith, unnamed)
    | inr (field, named) ↦
        let chosen : prepare_field is_same a e editable pick field (get "value" sent) id c db
            ≡ ok (set f v row) =
          ground (arith, named) in
        elim (Bool-cases (is_editable editable field)) [
          | inr fixed ↦ ground (arith, fixed)
          | inl free ↦
              let schema = pick (schemas_for e.user_schema e.inferred).update field in
              let (outcome, parsed, h1) =
                >>=-eq-ok (parse_field schema field (get "value" sent))
                  (after_schema is_same a e editable pick field id c db) (rw free at chosen) in
              from_outcome id c sent db f v row field named free outcome parsed h1
        ]
  ]

  -- An inline update changes the state only where it has passed all of this.
  pub inline_update-Reaches :
      (id : String) (c : RequestContext) (body : Result BodyError Row) (s : State D)
      → ((inline_update is_same a e editable pick id c body s).1 ≡ s)
        ⊎ ((field : String) × (value : Value) × (existing : Row) × Reaches id c body s.db field
              value existing)
  unfolding inline_update
  inline_update-Reaches id c body s =
      elim (Result-cases (prepare is_same a e editable pick id c body s.db)) [
        | inr (t, thrown) ↦ inl (rw (thrown, inline_update) refl)
        | inl (stop response, stopped) ↦ inl (rw (stopped, inline_update) refl)
        | inl (set field value existing, on) ↦
            inr (field, value, existing, prepare-set id c body s.db field value existing on)
      ]

module _ {D : Type 0} (is_same : Value → Value → Bool) (p : Platform) (a : Admin D) (e : Entity)
    (editable : List (Option String × Bool)) (pick : Schema → String → Option Schema)
    (req : Request) (request_id : String) where
  -- Whatever a request for an inline update sends, the state of the rows and the effects change only
  -- where editing is on, the origin check and every guard admit the request, the body names an editable
  -- column, the schema has made the value of the one that was sent, the caller's scope shows the row,
  -- and the policies of the fields admit the value.
  pub inline_update_route-Reaches :
      (id : String) (body : Result BodyError Row) (w : World (State D))
      → ((inline_update_route is_same p a e editable pick req request_id id body w).1.app ≡ w.app)
        ⊎ ((c : RequestContext) × (field : String) × (value : Value) × (existing : Row)
            × (e.update_disabled ≡ false)
            × Admitted p a.guard req request_id (inline_spec e) w c
            × Reaches is_same a e editable pick id c body w.app.db field value existing)
  unfolding inline_update_route
  inline_update_route-Reaches id body w =
      let handler =
        λ (c : RequestContext) (s : State D). inline_update is_same a e editable pick id c body s in
      elim (Bool-cases e.update_disabled) [
        | inl off ↦ inl (rw (off, inline_update_route) refl)
        | inr on ↦ elim (with_guards-Admitted p a.guard req request_id (inline_spec e) handler w) [
          | inr (_, (answer, kept)) ↦ inl (rw (on, inline_update_route) kept)
          | inl (c, admitted, same) ↦
              elim (inline_update-Reaches is_same a e editable pick id c body w.app) [
                | inr (field, value, existing, reached) ↦
                    inr (c, field, value, existing, on, admitted, reached)
                | inl kept ↦ inl (
                    rw (on, inline_update_route)
                      (ap (λ out. out.1.app) same
                        ∙ finish-app a.guard request_id (inline_spec e).result_envelope
                            (record w {
                              limiter =
                                  (build_request_context p a.guard req request_id w.limiter).1;
                            })
                            (inline_update is_same a e editable pick id c body w.app)
                        ∙ kept))
              ]
        ]
      ]
