-- ===== src/Related/Scopes.antt =====
-- The scope that `scopeBinding` of packages/next/src/runtime/scope-binding.ts hands to an adapter, said
-- without it.
use flowpanel.Base.{◌≡◌, refl, Option, none, some}
use flowpanel.Base.Value.{Scope}
use flowpanel.Policy.{ResourceScope, bypass, predicate}
use flowpanel.Guards.{RequestContext}
use flowpanel.Related.{scope_binding}

-- A resource that declares a predicate is bound to the scope of the request, any other to none.
pub record IsTenant (declared : Option ResourceScope) (c : RequestContext) (t : Option Scope)
    : Type 0 where
  pub tenant : declared ≡ some predicate → t ≡ some c.scope
  pub free : ¬ (declared ≡ some predicate) → t ≡ none

pub scope_binding-IsTenant :
    (declared : Option ResourceScope) (c : RequestContext)
    → IsTenant declared c (scope_binding declared c)
scope_binding-IsTenant none c = record { tenant = λ e. cc; free = λ e. refl }
scope_binding-IsTenant (some bypass) c = record { tenant = λ e. cc; free = λ e. refl }
scope_binding-IsTenant (some predicate) c = record {
  tenant = λ e. refl;
  free = λ e. absurd (e refl);
}
