-- ===== src/Inline.antt =====
-- packages/next/src/actions/inline-update.ts: one field of a row, edited in its table. The lookup of the
-- resource is left. Schemas are not of this repository: `pick` is what `schema.pick` gives for one
-- field, the schema itself where it has no `pick`, and `none` where there is no `safeParse`.
pub mod Guarded
use flowpanel.Base.{
  String, Bool, true, false, not, ◌&&◌, ◌==◌, Option, none, some, List, [], ◌∷◌, ◌++◌, Result, ok,
  err, ◌>>=◌, any, or_else, if◌then◌else◌,
}
use Prim.Native.String.{◌++◌ as append}
use flowpanel.Base.Dict.{lookup}
use flowpanel.Base.Value.{Value, undefined, str, obj, prop, end, Row}
use flowpanel.Errors.{Throws}
use flowpanel.Policy.{update}
use flowpanel.Guards.{Platform, Request, RequestContext, Spec, Reply, World, with_guards}
use flowpanel.RequestBody.{BodyError}
use flowpanel.Writes.{
  Admin, Entity, State, Schema, Issue, FieldDef, Diff, updating, declared_form_fields, schemas_for,
  read_row, mutation, assert_resource_writable_input, get,
}
use flowpanel.RowActions.{succeeded, everything, settle}

pub data Response : Type 0 where
  bad_body : BodyError → Response
  field_required not_found : Response
  not_editable : String → Response
  invalid : List Issue → Response
  done : Response

-- What stands before the write: a response, or the field, its value and the row as it is.
pub data Step : Type 0 where
  stop : Response → Step
  set : (field : String) (value : Value) (existing : Row) → Step

-- `{ [field]: value }`.
abbrev pub only_field : String → Value → Row
only_field field value = (field, value) ∷ []

-- A column that is an object: its field, and whether `editable` is true.
abbrev pub is_editable : List (Option String × Bool) → String → Bool
is_editable [] field = false
is_editable ((none, editable) ∷ columns) field = is_editable columns field
is_editable ((some name, editable) ∷ columns) field =
    let others = is_editable columns field in if name == field && editable then true else others

-- `formFields` with the edited field.
abbrev pub with_field : String → Option (List FieldDef) → Option (List FieldDef)
with_field field none = none
with_field field (some fields) =
    if any (λ (f : FieldDef). f.name == field) fields
    then some fields
    else some (
        fields
        ++ record {
          name = field;
          label = none;
          require_role = none;
          read_only = none;
          default_value = none;
          validate = none;
        }
          ∷ [])

-- `nextValue`, of what the schema made of the field.
abbrev pub next_value : String → Value → Row → Value
next_value field value parsed = or_else (lookup field parsed) value

-- The field of the body.
abbrev pub field_of : Option Value → Option String
field_of (some (str field)) = if field == "" then none else some field
field_of _ = none

-- The outcome of the schema: the complaints, or the next value.
unfoldable pub parse_field : Option Schema → String → Value → Throws (Result (List Issue) Value)
unfolding lookup
parse_field none field value = ok (ok value)
parse_field (some schema) field value = do
  parsed ← schema (only_field field value)
  elim parsed [ err issues ↦ ok (err issues) | ok data_ ↦ ok (ok (next_value field value data_)) ]

module _ {D : Type 0} (is_same : Value → Value → Bool) (a : Admin D) (e : Entity)
    (editable : List (Option String × Bool)) (pick : Schema → String → Option Schema) where
  -- From the found row on.
  unfoldable pub check_row : String → Value → RequestContext → Option Row → Throws Step
  unfolding assert_resource_writable_input declared_form_fields
  check_row field value c none = ok (stop not_found)
  check_row field value c (some existing) = do
    safe ←
        assert_resource_writable_input e.columns e.field_access
          (with_field field (declared_form_fields e.create_fields e.update_fields updating))
          (obj (prop field value end)) (some existing) c
    ok (set field value existing)

  -- From the outcome of the schema on.
  unfoldable pub after_schema :
      String → String → RequestContext → D → Result (List Issue) Value → Throws Step
  unfolding read_row check_row
  after_schema field id c db (err issues) = ok (stop (invalid issues))
  after_schema field id c db (ok value) = read_row a e id c db >>= check_row field value c

  -- The handler up to the write, of a field that is named.
  unfoldable pub prepare_field : String → Value → String → RequestContext → D → Throws Step
  unfolding parse_field schemas_for after_schema
  prepare_field field value id c db =
      if not (is_editable editable field)
      then ok (stop (not_editable field))
      else parse_field (pick (schemas_for e.user_schema e.inferred).update field) field value
        >>= after_schema field id c db

  unfoldable pub prepare : String → RequestContext → Result BodyError Row → D → Throws Step
  unfolding lookup prepare_field
  prepare id c (err reason) db = ok (stop (bad_body reason))
  prepare id c (ok body) db = elim (field_of (lookup "field" body)) [
    | none ↦ ok (stop field_required)
    | some field ↦ prepare_field field (get "value" body) id c db
  ]

  -- The write, which may find no row, and what follows it.
  unfoldable pub conclude :
      String → RequestContext → String → Value → Row → State D → Throws Response × State D
  unfolding mutation settle
  conclude id c field value existing s =
      let (written, db') =
        a.adapter.update (mutation a e c (some id) (only_field field value)) s.db in
      elim written [
        | err t ↦ (err t, record s { db = db' })
        | ok _ ↦ (
          ok done,
          settle is_same a e (append e.name ".inline-update") id c
              (some (record {
                before = some (only_field field (get field existing));
                after = some (only_field field value);
              }))
              (succeeded everything undefined []) (record s { db = db' }),
        )
      ]

  -- The guarded handler; `body` is what `readJsonObject` answers.
  unfoldable pub inline_update :
      String → RequestContext → Result BodyError Row → State D → Throws Response × State D
  unfolding prepare conclude
  inline_update id c body s = elim (prepare id c body s.db) [
    | err t ↦ (err t, s)
    | ok step ↦ elim step [
      | stop response ↦ (ok response, s)
      | set field value existing ↦ conclude id c field value existing s
    ]
  ]

abbrev pub inline_spec : Entity → Spec
inline_spec e = record {
  resource = some e.guarded;
  page_require_role = none;
  action_require_role = none;
  action_access = none;
  operation = some update;
  write = none;
  result_envelope = false;
}

-- What the route answers: that editing is disabled, or the reply behind the guards.
pub data Routed : Type 0 where
  editing_disabled : Routed
  replied : Reply Response → Routed

module _ {D : Type 0} (is_same : Value → Value → Bool) (p : Platform) (a : Admin D) (e : Entity)
    (editable : List (Option String × Bool)) (pick : Schema → String → Option Schema)
    (req : Request) (request_id : String) where
  -- `inlineUpdateRoute`.
  unfoldable pub inline_update_route :
      String → Result BodyError Row → World (State D) → Routed × World (State D)
  unfolding with_guards inline_update
  inline_update_route id body w =
      if e.update_disabled
      then (editing_disabled, w)
      else (let (reply, w') =
            with_guards p a.guard req request_id (inline_spec e)
              (λ c s. inline_update is_same a e editable pick id c body s) w in
          (replied reply, w'))
