-- ===== src/Writes/Setup.antt =====
-- What `makeActions` of packages/next/src/actions/resource-actions.ts reads of the configuration, its
-- checks, and scope-binding.ts of packages/next/src/runtime. The adapter is a parameter over a type `D` of
-- databases.
use flowpanel.Base.{
  String, Bool, ◌&&◌, Option, none, some, List, [], ◌∷◌, ok, err, ◌>>=◌, ◌>>◌, is_some,
  if◌then◌else◌,
}
use Prim.Native.String.{◌++◌ as append}
use flowpanel.Base.Value.{Row, Scope}
use flowpanel.Errors.{Throws, Thrown, known, access, disabled, missing, validation}
use flowpanel.Policy.{Policies, Operation, predicate, ResourceScope}
use flowpanel.Guards.{Config, RequestContext, Resource, require_authorized, guard_operation}
use flowpanel.Related.{scope_binding}
use flowpanel.Writes.Fields.{Column, FieldDef, Schema, Schemas, UserSchema}
use flowpanel.Writes.Filling.{Labels, run_field_validators, friendly_field_errors}
use flowpanel.Writes.Aftermath.{Effects, Outside}

-- `ScopeBinding`: the tenant scope that the resource's predicate is bound to, and `scopeRequired`.
pub record Binding : Type 0 where
  pub bound : Option Scope
  pub required : Bool

-- `ItemQueryContext` and `MutationContext`, less what is only passed on.
pub record Item : Type 0 where
  pub context : RequestContext
  pub id : String
  pub binding : Binding

pub record Mutation : Type 0 where
  pub context : RequestContext
  pub input : Row
  pub id : Option String
  pub soft_delete : Option String
  pub binding : Binding

-- The operations of an adapter on its database. A write may fail and still have changed it.
pub record Adapter (D : Type 0) : Type 0 where
  pub get : Item → D → Throws (Option Row)
  pub create : Mutation → D → Throws (Option Row) × D
  pub update : Mutation → D → Throws (Option Row) × D
  pub delete : Mutation → D → Throws (Unit {0}) × D

-- What `makeActions` reads of the configuration; `encode` is `encodeURIComponent`, `publishes` is
-- false where the option `publish` is.
pub record Admin (D : Type 0) : Type 0 where
  pub guard : Config
  pub adapter : Adapter D
  pub outside : Outside
  pub labels : Labels
  pub base_path : String
  pub encode : String → String
  pub publishes : Bool

-- What it reads of the resource; `audits` is false where its `audit` is.
pub record Entity : Type 0 where
  pub name : String
  pub guarded : Resource
  pub columns : List Column
  pub field_access : Policies
  pub create_disabled : Bool
  pub update_disabled : Bool
  pub delete_disabled : Bool
  pub create_fields : Option (List FieldDef)
  pub update_fields : Option (List FieldDef)
  pub default_values : Row
  pub user_schema : Option UserSchema
  pub inferred : Schemas
  pub soft_delete : Option String
  pub row_key : Option String
  pub audits : Bool

pub record State (D : Type 0) : Type 0 where
  pub db : D
  pub effects : Effects

join_atoms : (String → String) → List String → String
join_atoms encode [] = ""
join_atoms encode (segment ∷ segments) =
    append "/" (append (encode segment) (join_atoms encode segments))

-- `buildHref`, of at least one segment.
unfoldable pub build_href : {D : Type 0} → Admin D → List String → String
unfolding join_atoms
build_href a segments = append a.base_path (join_atoms a.encode segments)

-- `scopeBinding`.
abbrev pub is_predicate : Option ResourceScope → Bool
is_predicate s = elim s [ some predicate ↦ Bool.true | _ ↦ Bool.false ]

unfoldable pub bind_scope : Config → Resource → RequestContext → Binding
bind_scope config resource c = record {
  bound = scope_binding resource.scope c;
  required = is_some config.scope && is_predicate resource.scope;
}

abbrev pub read_only_error : Thrown
read_only_error = known (access "This admin is read-only.")

-- The checks with which each of the three begins.
unfoldable pub begin_write :
    Config → Resource → RequestContext → Operation → (off : Bool) (message : String) → Throws Unit
unfolding require_authorized
begin_write config resource c op off message = do
  require_authorized config resource c
  guard_operation resource c (some op)
  if config.read_only then err read_only_error else ok tt
  if off then err (known (disabled message)) else ok tt

invalid : List (String × String) → Thrown
invalid errors = known (validation errors "Validation failed")

-- `safeParse` and the validators of the fields, of the values that are about to be written.
unfoldable pub check_values : Labels → Schema → Option (List FieldDef) → Row → Throws Row
unfolding friendly_field_errors run_field_validators invalid
check_values labels schema fields values = do
  parsed ← schema values
  elim parsed [
    | err issues ↦ err (invalid (friendly_field_errors labels fields values issues))
    | ok data_ ↦ do
      errors ← run_field_validators fields data_
      elim errors [ some es ↦ err (invalid es) | none ↦ ok data_ ]
  ]

abbrev pub not_found : Thrown
not_found = known (missing "Not found")

abbrev pub found : Option Row → Throws Row
found none = err not_found
found (some row) = ok row
