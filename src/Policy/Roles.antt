-- ===== src/Policy/Roles.antt =====
-- The 0.2 alias `requireRole` against the canonical `access` map.
use flowpanel.Base.{◌≡◌, refl, Option, none, some, ◌>>=◌}
use flowpanel.Policy.{
  AccessContext, RequireRole, only, among, when, Operation, authorize_operation,
  resolve_operation_access, check_require_role,
}

-- A resource that has only `requireRole` is guarded for every operation exactly as
-- `checkRequireRole` guards it: the same callers pass, with the same error for the others, and an
-- error that a predicate throws goes through.
pub authorize-resolve_alias :
    (require : Option RequireRole) (op : Operation) (c : AccessContext)
    → (resolve_operation_access none require op >>= λ rule. authorize_operation rule c)
      ≡ check_require_role require c.role c.session
unfolding resolve_operation_access authorize_operation check_require_role
authorize-resolve_alias none op c = refl
authorize-resolve_alias (some (only r)) op c = refl
authorize-resolve_alias (some (among rs)) op c = refl
authorize-resolve_alias (some (when f)) op c = refl
