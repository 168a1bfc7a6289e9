-- ===== src/Guards.antt =====
-- packages/next/src/runtime/with-guards.ts, request-setup.ts, request-origin.ts, and
-- `requireAuthorized` of require-authorized.ts: the guards that stand before every handler.
-- `URL` and `String.prototype.trim` are the platform's: a parameter. The cache of request contexts
-- is the field `bound` of the request.
mod Context
pub mod Admission
pub mod Origins
pub use Context.*
unfoldable pub use Context.{browser_origin, build_request_context}
use flowpanel.Base.{
  ℕ, String, Bool, true, false, not, ◌&&◌, ◌||◌, Option, none, some, List, [], ◌∷◌, Result, ok, err,
  ◌>>=◌, ◌>>◌, if◌then◌else◌, is_some, or_else,
}
use flowpanel.Base.Text.{contains}
use flowpanel.Base.Dict.{lookup}
use flowpanel.Errors.{
  Throws, Thrown, known, new_error, access, disabled, ErrorCode, error_result, thrown_status,
  ResultError,
}
use flowpanel.Errors.Report.{Reports, report}
use flowpanel.Policy.{
  AccessRule, RequireRole, ResourceAccess, ResourceScope, Operation, update, authorize_operation,
  resolve_operation_access, check_require_role, assert_resource_scope, only, among,
}

pub record Resource : Type 0 where
  pub access : Option ResourceAccess
  pub require_role : Option RequireRole
  pub scope : Option ResourceScope

-- `GuardSpec`.
pub record Spec : Type 0 where
  pub resource : Option Resource
  pub page_require_role : Option RequireRole
  pub action_require_role : Option RequireRole
  pub action_access : Option AccessRule
  pub operation : Option Operation
  pub write : Option Bool
  pub result_envelope : Bool

-- `spec.write !== false`.
abbrev pub writes : Spec → Bool
writes spec = or_else spec.write true

-- What a request is answered with: the handler's response, or an error with its status, in the
-- `Result` envelope or in that of actions.
pub data Reply (R : Type 0) : Type 0 where
  answered : R → Reply R
  refused : ℕ → ResultError → Bool → Reply R

-- `errorResponse`.
unfoldable pub error_response : {R : Type 0} → Thrown → String → Bool → Reply R
unfolding thrown_status error_result
error_response t id envelope = refused (thrown_status t) (error_result t id) envelope

abbrev pub cross_origin : Thrown
cross_origin = known (access "Cross-origin write requests are not allowed.")

abbrev collect : List (Option String) → List String
collect [] = []
collect (none ∷ os) = collect os
collect (some o ∷ os) = o ∷ collect os

abbrev normal : (String → Option String) → List String → List (Option String)
normal origin_of [] = []
normal origin_of (o ∷ os) = origin_of o ∷ normal origin_of os

-- `guardSameOrigin`; `err` is the refusal.
unfoldable pub guard_same_origin : Platform → Config → Request → Throws (Unit {0})
unfolding lookup contains browser_origin
guard_same_origin p config req =
    if config.same_origin_off then ok tt else elim (lookup "origin" req.headers) [
      | some header ↦ elim (p.origin_of header) [
        | none ↦ err cross_origin
        | some origin ↦
            if contains (browser_origin p req ∷ collect (normal p.origin_of config.trusted_origins))
              origin
            then ok tt
            else err cross_origin
      ]
      | none ↦ elim (lookup "sec-fetch-site" req.headers) [
        | none ↦ ok tt
        | some site ↦ if contains ("cross-site" ∷ []) site then err cross_origin else ok tt
      ]
    ]

-- `requireAuthorized`.
unfoldable pub require_authorized : Config → Resource → RequestContext → Throws (Unit {0})
require_authorized config resource c = do
  check_require_role resource.require_role c.role c.session
  assert_resource_scope (is_some config.scope) resource.scope

-- The operation whose rule stands before the handler. An action with a rule of its own has none.
abbrev pub guarded_operation : Spec → Option Operation
guarded_operation spec = elim spec.operation [
  | some op ↦ some op
  | none ↦
      if is_some spec.action_access || is_some spec.action_require_role then none else some update
]

-- A guard that fails, and whether the response speaks the envelope of the route.
pub record Denied : Type 0 where
  pub thrown : Thrown
  pub in_envelope : Bool

abbrev pub or_deny : Throws (Unit {0}) → Result Denied (Unit {0})
or_deny (ok u) = ok u
or_deny (err t) = err (record { thrown = t; in_envelope = true })

abbrev pub admin_read_only : Thrown
admin_read_only = known (disabled "This admin is read-only.")

abbrev guard_read_only : Config → Spec → Throws (Unit {0})
guard_read_only config spec = if writes spec && config.read_only then err admin_read_only else ok tt

abbrev pub guard_operation : Resource → RequestContext → Option Operation → Throws (Unit {0})
guard_operation resource c none = ok tt
guard_operation resource c (some op) = do
  rule ← resolve_operation_access resource.access resource.require_role op
  authorize_operation rule c.caller

abbrev guard_resource : Config → Spec → RequestContext → Option Resource → Throws (Unit {0})
guard_resource config spec c none = ok tt
guard_resource config spec c (some resource) = do
  require_authorized config resource c
  guard_operation resource c (guarded_operation spec)

abbrev guard_action :
    RequestContext → Option AccessRule → Option RequireRole → Result Denied (Unit {0})
guard_action c (some rule) (some role) = err (record {
  thrown = new_error "An action cannot declare both access and requireRole.";
  in_envelope = false;
})
guard_action c (some rule) none = or_deny (authorize_operation (some rule) c.caller)
guard_action c none role = or_deny (check_require_role role c.role c.session)

-- The guards of `withGuards` between the request context and the handler, in their order.
unfoldable pub guards : Config → Spec → RequestContext → Result Denied (Unit {0})
unfolding require_authorized
guards config spec c = do
  or_deny (guard_read_only config spec)
  or_deny (guard_resource config spec c spec.resource)
  or_deny (check_require_role spec.page_require_role c.role c.session)
  guard_action c spec.action_access spec.action_require_role

-- What a request may change: the limiter, the reports of errors, and what the handler works on.
pub record World (A : Type 0) : Type 0 where
  pub limiter : Limits
  pub reports : Reports
  pub app : A

abbrev pub Handler : Type 0 → Type 0 → Type 0
Handler A R = RequestContext → A → Throws R × A

module _ {A R : Type 0} where
  -- The handler's outcome, its failure reported.
  abbrev pub finish : Config → String → Bool → World A → Throws R × A → Reply R × World A
  finish config id envelope w (ok r, app) = (answered r, record w { app = app })
  finish config id envelope w (err t, app) = (
    error_response t id envelope,
    record w { app = app; reports = report config.on_error t w.reports },
  )

  -- The handler, once the guards have answered.
  abbrev admit :
      Config
      → Spec
      → Handler A R
      → String
      → World A
      → RequestContext
      → Result Denied (Unit {0})
      → Reply R × World A
  admit config spec handler id w c (err d) =
      (error_response d.thrown id (d.in_envelope && spec.result_envelope), w)
  admit config spec handler id w c (ok _) =
      finish config id spec.result_envelope w (handler c w.app)

  -- The guards and the handler, once the context is there.
  abbrev enter :
      Config → Spec → Handler A R → String → World A → Throws RequestContext → Reply R × World A
  enter config spec handler id w (err t) = (
    error_response t id spec.result_envelope,
    record w { reports = report config.on_error t w.reports },
  )
  enter config spec handler id w (ok c) = admit config spec handler id w c (guards config spec c)

  -- The context, the guards and the handler, once the origin is checked.
  abbrev proceed :
      Platform
      → Config
      → Request
      → String
      → Spec
      → Handler A R
      → World A
      → Throws (Unit {0})
      → Reply R × World A
  proceed p config req id spec handler w (err t) = (error_response t id spec.result_envelope, w)
  proceed p config req id spec handler w (ok _) =
      let (built, limiter) = build_request_context p config req id w.limiter in
      enter config spec handler id (record w { limiter = limiter }) built

  -- `withGuards`; `id` is `requestIdFrom(req)`.
  unfoldable pub with_guards :
      Platform → Config → Request → String → Spec → Handler A R → World A → Reply R × World A
  unfolding build_request_context
  with_guards p config req id spec handler w =
      proceed p config req id spec handler w
        (if writes spec then guard_same_origin p config req else ok tt)
