-- ===== src/Policy.antt =====
-- packages/core/src/policy/access.ts, policy/fields.ts, runtime/auth.ts and runtime/scope.ts: who
-- may run an operation, read a field or write one. A callback of the configuration may throw.

pub mod Roles
pub mod Reading
pub mod Writing
use flowpanel.Base.{
  String, Bool, true, false, Option, none, some, List, [], ◌∷◌, ok, err, ◌>>=◌, ◌>>◌, if◌then◌else◌,
}
use flowpanel.Base.Text.{contains}
use flowpanel.Base.Dict.{lookup, keys}
use flowpanel.Base.Value.{Row, Session, Scope}
use flowpanel.Errors.{Throws, Thrown, known, new_error, access, unknown_field_error, field_access}

pub record AccessContext : Type 0 where
  pub session : Option Session
  pub role : String
  pub scope : Scope

-- A rule for a context of type `C`: `AccessRule` and the `write` rule of a field.
pub data Rule (C : Type 0) : Type 0 where
  flag : Bool → Rule C
  one_role : String → Rule C
  roles : List String → Rule C
  fn : (C → Throws Bool) → Rule C

abbrev pub AccessRule : Type 0
AccessRule = Rule AccessContext

-- `accessAllows` on the role of the context and on the context that a function is called with.
unfoldable pub access_allows : {C : Type 0} → Option (Rule C) → String → C → Throws Bool
access_allows none role c = ok true
access_allows (some (flag b)) role c = ok b
access_allows (some (fn f)) role c = f c
access_allows (some (roles rs)) role c = ok (contains rs role)
access_allows (some (one_role r)) role c = ok (contains (r ∷ []) role)

abbrev pub forbidden_error : Thrown
forbidden_error = known (access "Forbidden")

-- `authorizeOperation`.
unfoldable pub authorize_operation : Option AccessRule → AccessContext → Throws (Unit {0})
unfolding access_allows
authorize_operation rule c = do
  allowed ← access_allows rule c.role c
  if allowed then ok tt else err forbidden_error

-- `RequireRole`, a string, a list of them or a predicate of the session.
pub data RequireRole : Type 0 where
  only : String → RequireRole
  among : List String → RequireRole
  when : (Option Session → Throws Bool) → RequireRole

pub data Operation : Type 0 where
  read create update delete : Operation

pub record ResourceAccess : Type 0 where
  pub read_rule : Option AccessRule
  pub create_rule : Option AccessRule
  pub update_rule : Option AccessRule
  pub delete_rule : Option AccessRule

abbrev rule_for : ResourceAccess → Operation → Option AccessRule
rule_for a read = a.read_rule
rule_for a create = a.create_rule
rule_for a update = a.update_rule
rule_for a delete = a.delete_rule

abbrev role_rule : Option RequireRole → Option AccessRule
role_rule none = none
role_rule (some (only r)) = some (one_role r)
role_rule (some (among rs)) = some (roles rs)
role_rule (some (when f)) = some (fn (λ c. f c.session))

-- `resolveOperationAccess`.
unfoldable pub resolve_operation_access :
    Option ResourceAccess → Option RequireRole → Operation → Throws (Option AccessRule)
resolve_operation_access (some a) (some r) op = err (
    new_error
      "A resource cannot declare both access and requireRole. Move the role rule into access.")
resolve_operation_access (some a) none op = ok (rule_for a op)
resolve_operation_access none require op = ok (role_rule require)

-- `checkRequireRole`.
unfoldable pub check_require_role : Option RequireRole → String → Option Session → Throws (Unit {0})
check_require_role none role session = ok tt
check_require_role (some (when f)) role session = do
  holds ← f session
  if holds then ok tt else err forbidden_error
check_require_role (some (among rs)) role session =
    if contains rs role then ok tt else err forbidden_error
check_require_role (some (only r)) role session =
    if contains (r ∷ []) role then ok tt else err forbidden_error

-- `"bypass"`, a predicate (what it does is the adapter's affair here), or nothing.
pub data ResourceScope : Type 0 where
  bypass predicate : ResourceScope

-- `assertResourceScope`.
unfoldable pub assert_resource_scope : Bool → Option ResourceScope → Throws (Unit {0})
assert_resource_scope false s = ok tt
assert_resource_scope true (some bypass) = ok tt
assert_resource_scope true (some predicate) = ok tt
assert_resource_scope true none = err (
    known (
      access
        "Resource is missing scope. Global scope is active — every resource must define a scope or opt out explicitly with scope: \"bypass\"."))

-- `FieldAccess`; a write rule sees `FieldWriteContext`.
pub record FieldWriteContext : Type 0 where
  pub caller : AccessContext
  pub open caller use *
  pub current : Option Row
  pub input : Row

pub record FieldAccess : Type 0 where
  pub read_rule : Option AccessRule
  pub write_rule : Option (Rule FieldWriteContext)
  pub sensitive : Bool

-- `FieldAccessMap`.
abbrev pub Policies : Type 0
Policies = List (String × FieldAccess)

abbrev pub read_of : Option FieldAccess → Option AccessRule
read_of none = none
read_of (some p) = p.read_rule

abbrev pub write_of : Option FieldAccess → Option (Rule FieldWriteContext)
write_of none = none
write_of (some p) = p.write_rule

abbrev pub is_sensitive : Option FieldAccess → Bool
is_sensitive none = false
is_sensitive (some p) = p.sensitive

-- `filterReadableProjection`. An absent map is the empty one.
unfoldable pub filter_readable : List String → Policies → AccessContext → Throws (List String)
unfolding access_allows
filter_readable [] policies c = ok []
filter_readable (field ∷ rest) policies c =
    let later = filter_readable rest policies c in
    if is_sensitive (lookup field policies) then later else do
      allowed ← access_allows (read_of (lookup field policies)) c.role c
      readable ← later
      ok (if allowed then field ∷ readable else readable)

-- The first loop of `assertWritableInput`.
unfoldable pub check_declared : List String → List String → Throws (Unit {0})
check_declared declared [] = ok tt
check_declared declared (field ∷ rest) =
    let later = check_declared declared rest in
    if contains declared field then later else err (known (unknown_field_error field))

-- The second loop.
unfoldable pub check_writable : Policies → FieldWriteContext → List String → Throws (Unit {0})
unfolding access_allows
check_writable policies c [] = ok tt
check_writable policies c (field ∷ rest) =
    let later = check_writable policies c rest in
    do
      allowed ← access_allows (write_of (lookup field policies)) c.role c
      if allowed then later else err (known (field_access field))

-- `assertWritableInput`. The result is a copy of the input.
unfoldable pub assert_writable_input : List String → Policies → Row → FieldWriteContext → Throws Row
unfolding check_declared check_writable
assert_writable_input declared policies input c = do
  check_declared declared (keys input)
  check_writable policies c (keys input)
  ok input
