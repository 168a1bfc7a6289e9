-- ===== src/Writes/Fields.antt =====
-- packages/next/src/actions/field-pipeline.ts, `declaredWriteFields` of
-- packages/core/src/internal/write-fields.ts and `declaredFormFields` of
-- packages/next/src/runtime/resolve-form-fields.ts: the fields of a form and the rules on their writes.
-- Zod's `safeParse` is a parameter, and so are the callbacks of a field.
use flowpanel.Base.{
  ℕ, String, Bool, false, not, ◌&&◌, ◌||◌, ◌==◌, Option, none, some, List, [], ◌∷◌, Result, ok,
  ◌>>=◌, or_else, is_some, map, if◌then◌else◌,
}
use flowpanel.Base.Text.{contains}
use flowpanel.Base.Dict.{lookup, insert}
use flowpanel.Base.Value.{Value, obj, Row, props}
use flowpanel.Errors.{Throws}
use flowpanel.Policy.{
  Rule, one_role, roles, fn, flag, RequireRole, only, among, when, FieldAccess, FieldWriteContext,
  Policies, write_of, assert_writable_input,
}
use flowpanel.Guards.{RequestContext}

-- A column: its key (a number or a symbol as `String(column)` writes it), or a description of it.
pub data Column : Type 0 where
  key : String → Column
  described : Option String → Column

-- What Zod says of a rejected value: `issue.code`, `minimum`, `message`, and `path`, each step as a
-- text.
pub record Issue : Type 0 where
  pub code : String
  pub minimum : Option ℕ
  pub message : String
  pub path : List String

-- `boolean`, or a predicate of the row that is edited.
pub data ReadOnly : Type 0 where
  fixed : Bool → ReadOnly
  depends : (Row → Throws Bool) → ReadOnly

-- A default is a value, or a function of the request.
pub data Default : Type 0 where
  given : Value → Default
  resolve : (RequestContext → Throws Value) → Default

-- A validator is a function of the value and of all values, whose text is a complaint, or a schema.
pub data Validator : Type 0 where
  check : (Value → Row → Throws (Option String)) → Validator
  schema : (Value → Throws (Result (List Issue) Value)) → Validator

-- A schema, and those of a resource: one for both writes, or one for each.
abbrev pub Schema : Type 0
Schema = Row → Throws (Result (List Issue) Row)

pub record Schemas : Type 0 where
  pub create : Schema
  pub update : Schema

pub data UserSchema : Type 0 where
  shared : Schema → UserSchema
  each : Option Schema → Option Schema → UserSchema

-- `schemasFor`, of the resource's own schema and of what the adapter infers.
unfoldable pub schemas_for : Option UserSchema → Schemas → Schemas
schemas_for none inferred = inferred
schemas_for (some (shared s)) inferred = record { create = s; update = s }
schemas_for (some (each created updated)) inferred = record {
  create = or_else created inferred.create;
  update = or_else updated inferred.update;
}

-- What the pipeline reads of a `FieldDef`.
pub record FieldDef : Type 0 where
  pub name : String
  pub label : Option String
  pub require_role : Option RequireRole
  pub read_only : Option ReadOnly
  pub default_value : Option Default
  pub validate : Option Validator

-- `declaredFormFields`, of the fields of `create` and of those of `update`.
pub data Mode : Type 0 where
  creating updating : Mode

unfoldable pub declared_form_fields :
    Option (List FieldDef) → Option (List FieldDef) → Mode → Option (List FieldDef)
declared_form_fields created updated creating = created
declared_form_fields created (some fields) updating = some fields
declared_form_fields created none updating = created

column_names : List Column → List String
column_names [] = []
column_names (key k ∷ columns) = k ∷ column_names columns
column_names (described none ∷ columns) = column_names columns
column_names (described (some field) ∷ columns) =
    let others = column_names columns in if field == "" then others else field ∷ others

-- `declaredWriteFields`, of the columns of the resource.
unfoldable pub declared_write_fields : List Column → Option (List FieldDef) → List String
unfolding column_names
declared_write_fields columns none = column_names columns
declared_write_fields columns (some fields) = map (λ (f : FieldDef). f.name) fields

-- A column of the database, as `writableColumns` reads it; `writable_on_update` is true where it is
-- absent.
pub record DbColumn : Type 0 where
  pub name : String
  pub primary_key : Bool
  pub generated : Bool
  pub writable_on_update : Bool

-- `writableColumns`; the mode is `updating` or none.
unfoldable pub writable_columns :
    List Column → List DbColumn → Option (List FieldDef) → Bool → List DbColumn
unfolding declared_write_fields contains
writable_columns declared [] fields updating_form = []
writable_columns declared (c ∷ columns) fields updating_form =
    let others = writable_columns declared columns fields updating_form in
    if is_some fields
      || contains (declared_write_fields declared none) c.name
        && (not updating_form || not c.primary_key && not c.generated && c.writable_on_update)
    then c ∷ others
    else others

abbrev pub with_write : Option FieldAccess → Rule FieldWriteContext → FieldAccess
with_write none rule = record { read_rule = none; write_rule = some rule; sensitive = false }
with_write (some p) rule = record p { write_rule = some rule }

-- The write rule of a `requireRole`.
abbrev pub role_write : RequireRole → Rule FieldWriteContext
role_write (only r) = one_role r
role_write (among rs) = roles rs
role_write (when f) = fn (λ c. f c.session)

-- `field.readOnly`, for the row that is edited.
abbrev pub is_read_only : Option ReadOnly → Option Row → Throws Bool
is_read_only none current = ok false
is_read_only (some (fixed b)) current = ok b
is_read_only (some (depends f)) none = ok false
is_read_only (some (depends f)) (some row) = f row

-- The rule that a field brings to a form.
abbrev pub field_rule : FieldDef → Option Row → Throws (Option (Rule FieldWriteContext))
field_rule f current = elim f.require_role [
  | some r ↦ ok (some (role_write r))
  | none ↦ do
    locked ← is_read_only f.read_only current
    ok (if locked then some (flag false) else none)
]

abbrev set_rule : String → Option (Rule FieldWriteContext) → Policies → Policies
set_rule name none policies = policies
set_rule name (some rule) policies = insert name (with_write (lookup name policies) rule) policies

-- One turn of the loop of `effectiveFieldPolicies`.
unfoldable pub add_policy : FieldDef → Option Row → Policies → Throws Policies
unfolding lookup insert
add_policy f current policies = elim (write_of (lookup f.name policies)) [
  | some rule ↦ ok policies
  | none ↦ do rule ← field_rule f current; ok (set_rule f.name rule policies)
]

-- `effectiveFieldPolicies`.
unfoldable pub effective_field_policies : List FieldDef → Option Row → Policies → Throws Policies
unfolding add_policy
effective_field_policies [] current policies = ok policies
effective_field_policies (f ∷ fields) current policies =
    add_policy f current policies >>= effective_field_policies fields current

-- `assertResourceWritableInput`; anything but an object counts as an object without keys, and is
-- accepted before a rule is looked at.
unfoldable pub assert_resource_writable_input :
    List Column
    → Policies
    → Option (List FieldDef)
    → Value
    → Option Row
    → RequestContext
    → Throws Row
unfolding declared_write_fields effective_field_policies assert_writable_input
assert_resource_writable_input columns access fields (obj ps) current c = do
  policies ← effective_field_policies (or_else fields []) current access
  assert_writable_input (declared_write_fields columns fields) policies (props ps)
      (record { caller = c.caller; current = current; input = props ps })
assert_resource_writable_input columns access fields _ current c = ok []
