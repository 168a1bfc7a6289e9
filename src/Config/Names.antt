-- ===== src/Config/Names.antt =====
-- What a configuration that is accepted cannot hold.
use flowpanel.Base.{Bool, Bool-cases}
use flowpanel.Base.{
  String, true, false, ◌≡◌, ◌↔◌, ◌⊎◌, refl, sym, ◌∙◌, ap, ◌==◌, none, some, List, [], ◌∷◌, ok,
  ◌>>=◌, arith, All, Option-cases, inl, inr, map, >>=-eq-ok,
}
use flowpanel.Base.Text.{contains}
use flowpanel.Base.Dict.{lookup, insert, lookup-insert}
use flowpanel.Errors.{Throws}
use flowpanel.Config.{
  OwnerKind, Owner, Registry, new_registry, add, is_safe_segment, assert_unique_keys, unique_from,
  AuthConfig, assert_production_auth, Action, is_valid_max, assert_actions, assert_canonical_access,
}

-- No two of the texts are the same.
abbrev pub AreDifferent : List String → Type 0
AreDifferent [] = Unit
AreDifferent (x ∷ xs) = All (λ y. (x == y) ≡ false) xs × AreDifferent xs

All-seen :
    (key : String) (seen keys : List String)
    → All (λ k. contains (key ∷ seen) k ≡ false) keys
      ↔ (All (λ k. contains seen k ≡ false) keys × All (λ k. (key == k) ≡ false) keys)
unfolding contains
All-seen key seen [] = ground arith
All-seen key seen (k ∷ keys) = ground (arith, All-seen key seen keys)

All-unseen : (keys : List String) → All (λ k. contains [] k ≡ false) keys
unfolding contains
All-unseen [] = tt
All-unseen (k ∷ keys) = (refl, All-unseen keys)

unique_from_iff :
    (resource_name place : String) (keys seen : List String)
    → (unique_from resource_name place keys seen ≡ ok tt)
      ↔ (All (λ k. contains seen k ≡ false) keys × AreDifferent keys)
unfolding unique_from
unique_from_iff resource_name place [] seen = ground arith
unique_from_iff resource_name place (key ∷ keys) seen =
    ground (arith, unique_from_iff resource_name place keys (key ∷ seen), All-seen key seen keys)

-- The keys of a list of actions are accepted exactly when no two are the same.
pub assert_unique_keys_iff :
    (keys : List String) (resource_name place : String)
    → (assert_unique_keys (some keys) resource_name place ≡ ok tt) ↔ AreDifferent keys
unfolding assert_unique_keys
assert_unique_keys_iff keys resource_name place =
    ground (arith, unique_from_iff resource_name place keys [], All-unseen keys)

-- An admin in production is accepted exactly when it requires a role, or is deliberately public and
-- read-only.
pub assert_production_auth_iff :
    (c : AuthConfig)
    → c.is_production ≡ true
    → (assert_production_auth c ≡ ok tt)
      ↔ ((c.has_require_role ≡ true) ⊎ ((c.allow_unauthenticated ≡ true) × (c.read_only ≡ true)))
unfolding assert_production_auth
assert_production_auth_iff c production = ground arith

-- Routes as their kinds and names, and `add` for each of them, in order.
abbrev pub Routes : Type 0
Routes = List (OwnerKind × String)

unfoldable pub add_routes : (String → String) → Routes → Registry → Throws Registry
add_routes lower [] r = ok r
add_routes lower ((kind, name) ∷ routes) r = add lower kind name r >>= add_routes lower routes

abbrev pub keys_of : (String → String) → Routes → List String
keys_of lower routes = map (λ route. lower route.1) routes

abbrev owner : OwnerKind → String → Owner
owner kind name = record { kind = kind; name = name }

add_iff :
    (lower : String → String) (kind : OwnerKind) (name : String) (r r' : Registry)
    → add lower kind name r ≡ ok r'
    → (is_safe_segment name ≡ true)
      × (lookup (lower name) r.owners ≡ none)
      × (r'.owners ≡ insert (lower name) (owner kind name) r.owners)
unfolding add
add_iff lower kind name r r' e = elim (Option-cases (lookup (lower name) r.owners)) [
  | inl free ↦ ground (arith, free, e)
  | inr (o, taken) ↦ ground (arith, taken, e)
]

-- Routes that a registry takes, with what it holds already.
abbrev AreFree : (String → String) → Routes → Registry → Type 0
AreFree lower routes r =
    All (λ route. is_safe_segment route.1 ≡ true) routes
    × All (λ route. lookup (lower route.1) r.owners ≡ none) routes
    × AreDifferent (keys_of lower routes)

All-keys_of :
    (lower : String → String) (key : String) (value : Owner) (routes : Routes) (r r' : Registry)
    → r'.owners ≡ insert key value r.owners
    → All (λ route. lookup (lower route.1) r'.owners ≡ none) routes
    → All (λ route. lookup (lower route.1) r.owners ≡ none) routes
      × All (λ y. (key == y) ≡ false) (keys_of lower routes)
All-keys_of lower key value [] r r' e h = (tt, tt)
All-keys_of lower key value ((kind, name) ∷ routes) r r' e (h, hs) =
    let (ks, ds) = All-keys_of lower key value routes r r' e hs in
    let at = lookup-insert key (lower name) value r.owners in
    let found = sym (ap (lookup (lower name)) e ∙ at) ∙ h in
    ((ground (arith, found), ks), (ground (arith, found), ds))

add_routes-AreFree :
    (lower : String → String) (routes : Routes) (r r' : Registry)
    → add_routes lower routes r ≡ ok r'
    → AreFree lower routes r
unfolding add_routes
add_routes-AreFree lower [] r r' e = (tt, tt, tt)
add_routes-AreFree lower ((kind, name) ∷ routes) r r' e =
    let (r1, added, rest) = >>=-eq-ok (add lower kind name r) (add_routes lower routes) e in
    let (safe, free, owners) = add_iff lower kind name r r1 added in
    let (safes, frees, different) = add_routes-AreFree lower routes r1 r' rest in
    let (olds, news) = All-keys_of lower (lower name) (owner kind name) routes r r1 owners frees in
    ((safe, safes), (free, olds), (news, different))

-- Routes that a new registry takes, of whatever kinds, have safe names, no two of which are the same
-- but for the case of their letters.
pub add_routes-AreDifferent :
    (lower : String → String) (routes : Routes) (r : Registry)
    → add_routes lower routes new_registry ≡ ok r
    → All (λ route. is_safe_segment route.1 ≡ true) routes × AreDifferent (keys_of lower routes)
add_routes-AreDifferent lower routes r e =
    let (safes, _, different) = add_routes-AreFree lower routes new_registry r e in
    (safes, different)

-- An action with one rule at most, whose limit is a whole number from 1 to 10000 if it has one.
abbrev pub IsCanonical : Action → Type 0
IsCanonical a = (a.has_access ≡ true → a.has_require_role ≡ false) × (is_valid_max a.max ≡ true)

assert_actions_iff :
    (actions : List Action) (resource_name : String)
    → (assert_actions actions resource_name ≡ ok tt) ↔ All IsCanonical actions
unfolding assert_actions
assert_actions_iff [] resource_name = ground arith
assert_actions_iff (a ∷ actions) resource_name = elim (Bool-cases (is_valid_max a.max)) [
  | inl valid ↦ ground (arith, valid, assert_actions_iff actions resource_name)
  | inr invalid ↦ ground (arith, invalid)
]

-- A resource is accepted exactly when it does not have both `access` and `requireRole`, and neither
-- does any of its actions, and every limit of a bulk action is a whole number from 1 to 10000.
pub assert_canonical_access_iff :
    (has_access has_require_role : Bool) (actions : List Action) (resource_name : String)
    → (assert_canonical_access has_access has_require_role actions resource_name ≡ ok tt)
      ↔ ((has_access ≡ true → has_require_role ≡ false) × All IsCanonical actions)
unfolding assert_canonical_access
assert_canonical_access_iff has_access has_require_role actions resource_name =
    ground (arith, assert_actions_iff actions resource_name)
