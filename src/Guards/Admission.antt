-- ===== src/Guards/Admission.antt =====
-- When a guarded handler runs.
use flowpanel.Base.{
  ℕ, String, Bool, true, false, ◌≡◌, refl, sym, ◌∙◌, ◌↔◌, ◌⊎◌, inl, inr, Option, none, some, ok,
  err, ◌>>◌, arith, is_some, >>=-eq-ok, >>-eq-ok_iff, Result-cases, if◌then◌else◌,
}
use flowpanel.Errors.{Throws, ResultError}
use flowpanel.Policy.{
  AccessRule, RequireRole, Operation, authorize_operation, resolve_operation_access,
  check_require_role, assert_resource_scope,
}
use flowpanel.Guards.Context.{Platform, Config, Request, RequestContext, build_request_context}
use flowpanel.Guards.{
  Resource, Spec, Denied, World, Handler, Reply, refused, writes, guarded_operation, guards,
  guard_same_origin, require_authorized, with_guards, finish, error_response, or_deny,
  guard_read_only, guard_resource, guard_action, guard_operation,
}

-- The rule of the operation, where there is one, is defined and admits the caller.
abbrev pub OperationHolds : Resource → RequestContext → Option Operation → Type 0
OperationHolds resource c none = Unit
OperationHolds resource c (some op) =
    (rule : Option AccessRule) × (resolve_operation_access resource.access resource.require_role op
      ≡ ok rule)
    × (authorize_operation rule c.caller ≡ ok tt)

abbrev pub ResourceHolds : Config → Spec → RequestContext → Option Resource → Type 0
ResourceHolds config spec c none = Unit
ResourceHolds config spec c (some resource) =
    (check_require_role resource.require_role c.role c.session ≡ ok tt)
    × (assert_resource_scope (is_some config.scope) resource.scope ≡ ok tt)
    × OperationHolds resource c (guarded_operation spec)

-- The action's own rule, of which there is one at most.
abbrev pub ActionHolds : RequestContext → Option AccessRule → Option RequireRole → Type 0
ActionHolds c (some rule) (some role) = ⊥
ActionHolds c (some rule) none = authorize_operation (some rule) c.caller ≡ ok tt
ActionHolds c none role = check_require_role role c.role c.session ≡ ok tt

abbrev pub Admits : Config → Spec → RequestContext → Type 0
Admits config spec c =
    (writes spec ≡ true → config.read_only ≡ false)
    × ResourceHolds config spec c spec.resource
    × (check_require_role spec.page_require_role c.role c.session ≡ ok tt)
    × ActionHolds c spec.action_access spec.action_require_role

or_deny_iff : (t : Throws (Unit {0})) → (or_deny t ≡ ok tt) ↔ (t ≡ ok tt)
or_deny_iff (ok u) = ground arith
or_deny_iff (err t) = ground arith

guard_operation_iff :
    (r : Resource) (c : RequestContext) (o : Option Operation)
    → (guard_operation r c o ≡ ok tt) ↔ OperationHolds r c o
guard_operation_iff r c none = (λ _. tt, λ _. refl)
guard_operation_iff r c (some op) = (
  λ e.
      >>=-eq-ok (resolve_operation_access r.access r.require_role op)
        (λ rule. authorize_operation rule c.caller) e,
  λ (rule, resolved, holds). rw resolved holds,
)

require_authorized_iff :
    (config : Config) (r : Resource) (c : RequestContext)
    → (require_authorized config r c ≡ ok tt) ↔ (
        (check_require_role r.require_role c.role c.session ≡ ok tt)
        × (assert_resource_scope (is_some config.scope) r.scope ≡ ok tt))
unfolding require_authorized
require_authorized_iff config r c = >>-eq-ok_iff _ _

guard_read_only_iff :
    (config : Config) (spec : Spec)
    → (guard_read_only config spec ≡ ok tt) ↔ (writes spec ≡ true → config.read_only ≡ false)
guard_read_only_iff config spec = ground arith

guard_resource_iff :
    (config : Config) (spec : Spec) (c : RequestContext) (o : Option Resource)
    → (guard_resource config spec c o ≡ ok tt) ↔ ResourceHolds config spec c o
guard_resource_iff config spec c none = (λ _. tt, λ _. refl)
guard_resource_iff config spec c (some r) =
    let both =
      >>-eq-ok_iff (require_authorized config r c) (guard_operation r c (guarded_operation spec)) in
    let role = require_authorized_iff config r c in
    let rule = guard_operation_iff r c (guarded_operation spec) in
    (
      λ e. let (p, q) = both.0 e in let (a, b) = role.0 p in (a, b, rule.0 q),
      λ (a, b, d). both.1 (role.1 (a, b), rule.1 d),
    )

guard_action_iff :
    (c : RequestContext) (rule : Option AccessRule) (role : Option RequireRole)
    → (guard_action c rule role ≡ ok tt) ↔ ActionHolds c rule role
guard_action_iff c (some rule) (some role) = ground arith
guard_action_iff c (some rule) none = or_deny_iff _
guard_action_iff c none role = or_deny_iff _

guards_iff :
    (config : Config) (spec : Spec) (c : RequestContext)
    → (guards config spec c ≡ ok tt) ↔ Admits config spec c
unfolding guards
guards_iff config spec c =
    let resource = or_deny (guard_resource config spec c spec.resource) in
    let page = or_deny (check_require_role spec.page_require_role c.role c.session) in
    let action = guard_action c spec.action_access spec.action_require_role in
    let first =
      >>-eq-ok_iff (or_deny (guard_read_only config spec)) (resource >> (page >> action)) in
    let second = >>-eq-ok_iff resource (page >> action) in
    let third = >>-eq-ok_iff page action in
    let r = guard_read_only_iff config spec in
    let s = guard_resource_iff config spec c spec.resource in
    let a = guard_action_iff c spec.action_access spec.action_require_role in
    (
      λ e.
          let (x, e') = first.0 e in
          let (y, e'') = second.0 e' in
          let (z, w) = third.0 e'' in
          (r.0 ((or_deny_iff _).0 x), s.0 ((or_deny_iff _).0 y), (or_deny_iff _).0 z, a.0 w),
      λ (x, y, z, w). first.1 (
        (or_deny_iff _).1 (r.1 x),
        second.1 ((or_deny_iff _).1 (s.1 y), third.1 ((or_deny_iff _).1 z, a.1 w)),
      ),
    )

abbrev origin_test : Platform → Config → Request → Spec → Throws (Unit {0})
origin_test p config req spec = if writes spec then guard_same_origin p config req else ok tt

origin_test_iff :
    (p : Platform) (config : Config) (req : Request) (spec : Spec)
    → (origin_test p config req spec ≡ ok tt)
      ↔ (writes spec ≡ true → guard_same_origin p config req ≡ ok tt)
origin_test_iff p config req spec = ground arith

Admits-eq :
    (config : Config) (spec : Spec) (c c' : RequestContext) (d : Denied)
    → guards config spec c ≡ err d
    → ◌≡◌ {A = Throws RequestContext} (ok c) (ok c')
    → ¬ Admits config spec c'
Admits-eq config spec c c' d denied same a = cc (denied, (guards_iff config spec c').1 a, same)

module _ {A : Type 0} (p : Platform) (config : Config) (req : Request) (id : String)
    (spec : Spec) where
  -- The request passes the origin check if it may write, has a context, and is admitted with it.
  abbrev pub Admitted : World A → RequestContext → Type 0
  Admitted w c =
      (writes spec ≡ true → guard_same_origin p config req ≡ ok tt)
      × ((build_request_context p config req id w.limiter).0 ≡ ok c)
      × Admits config spec c

  -- The result when the handler does not run: an error response, and nothing that the handler works
  -- on has changed.
  abbrev pub Refused : {R : Type 0} → World A → Reply R × World A → Type 0
  Refused w out =
      ((status : ℕ) × (e : ResultError) × (envelope : Bool) × (out.0 ≡ refused status e envelope))
      × (out.1.app ≡ w.app)

  -- A handler runs exactly when the origin check, the request context and every guard succeed, and
  -- then once, with that context, its result being the response; in every other case the response
  -- is an error and what the handler works on is as it was.
  pub with_guards-Admitted :
      {R : Type 0} (handler : Handler A R) (w : World A)
      → ((c : RequestContext) × Admitted w c
          × (with_guards p config req id spec handler w
              ≡ finish config id spec.result_envelope
                  (record w { limiter = (build_request_context p config req id w.limiter).1 })
                  (handler c w.app)))
        ⊎ (((c : RequestContext) → ¬ Admitted w c)
            × Refused w (with_guards p config req id spec handler w))
  unfolding with_guards error_response
  with_guards-Admitted handler w =
      let (built, limiter) = build_request_context p config req id w.limiter in
      elim (Result-cases (origin_test p config req spec)) [
        | inr (t, foreign) ↦ inr (
          λ c (o, _, _). cc (foreign, (origin_test_iff p config req spec).1 o),
          rw foreign ((_, _, _, refl), refl),
        )
        | inl (_, own) ↦ elim (Result-cases built) [
          | inr (t, failed) ↦
              inr (λ c (_, b, _). cc (failed, b), rw (own, failed) ((_, _, _, refl), refl))
          | inl (c, there) ↦ elim (Result-cases (guards config spec c)) [
            | inr (d, denied) ↦ inr (
              λ c' (_, b, a). Admits-eq config spec c c' d denied (sym there ∙ b) a,
              rw (own, there, denied) ((_, _, _, refl), refl),
            )
            | inl (_, admits) ↦ inl (
              c,
              (
                (origin_test_iff p config req spec).0 own,
                there,
                (guards_iff config spec c).0 admits,
              ),
              rw (own, there, admits),
            )
          ]
        ]
      ]
