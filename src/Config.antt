-- ===== src/Config.antt =====
-- packages/core/src/compiler/route-graph.ts and validate-config.ts: what a configuration may not
-- hold. `toLocaleLowerCase("en-US")` and the environment are parameters.
pub mod Names
use flowpanel.Base.{
  ℕ, String, Bool, true, false, not, ◌&&◌, ◌||◌, ◌==◌, eqb, leb, Option, none, some, List, [], ◌∷◌,
  ok, err, ◌>>=◌, ◌>>◌, is_some, if◌then◌else◌,
}
use Prim.Native.Char.{code}
use Prim.Native.String.{◌++◌ as append}
use flowpanel.Base.Text.{contains}
use flowpanel.Base.Dict.{lookup, insert}
use flowpanel.Errors.{Throws, Thrown, new_error}

-- `RouteOwnerKind` and `RouteOwner`.
pub data OwnerKind : Type 0 where
  resource dashboard page queue : OwnerKind

pub record Owner : Type 0 where
  pub kind : OwnerKind
  pub name : String

abbrev is_letter : ℕ → Bool
is_letter c = leb b'A' c && leb c b'Z' || leb b'a' c && leb c b'z'

abbrev is_segment_unit : ℕ → Bool
is_segment_unit c = is_letter c || leb b'0' c && leb c b'9' || eqb c b'_' || eqb c b'-'

are_units : String → Bool
are_units String.[] = true
are_units (String.◌∷◌ c s) = is_segment_unit (code c) && are_units s

-- `SAFE_SEGMENT.test`.
unfoldable pub is_safe_segment : String → Bool
unfolding are_units
is_safe_segment String.[] = false
is_safe_segment (String.◌∷◌ c s) = is_letter (code c) && are_units s

abbrev kind_text : OwnerKind → String
kind_text resource = "resource"
kind_text dashboard = "dashboard"
kind_text page = "page"
kind_text queue = "queue"

abbrev quoted : OwnerKind → String → String
quoted kind name = append (kind_text kind) (append " \"" (append name "\""))

unsafe_name : OwnerKind → String → Thrown
unsafe_name kind name = new_error (
    append (quoted kind name)
      " must be a safe ASCII route identifier: start with a letter and use only letters, numbers, underscores, or hyphens.")

name_collision : Owner → OwnerKind → String → Thrown
name_collision existing kind name = new_error (
    append "Route name collision: " (
      append (quoted existing.kind existing.name) (
        append " conflicts with "
          (append (quoted kind name) ". Route names are case-insensitive."))))

path_collision : Owner → OwnerKind → String → String → Thrown
path_collision existing kind name path = new_error (
    append "Route path collision: " (
      append (quoted existing.kind existing.name) (
        append " conflicts with " (
          append (quoted kind name)
            (append " at \"" (append path "\". Route paths are case-insensitive."))))))

-- A `RouteNameRegistry`: its two maps.
pub record Registry : Type 0 where
  pub owners : List (String × Owner)
  pub paths : List (String × Owner)

abbrev pub new_registry : Registry
new_registry = record { owners = []; paths = [] }

-- `add`.
unfoldable pub add : (String → String) → OwnerKind → String → Registry → Throws Registry
unfolding is_safe_segment lookup insert unsafe_name name_collision
add lower kind name r =
    if not (is_safe_segment name)
    then err (unsafe_name kind name)
    else elim (lookup (lower name) r.owners) [
      | some existing ↦ err (name_collision existing kind name)
      | none ↦
          ok (record r {
            owners = insert (lower name) (record { kind = kind; name = name }) r.owners;
          })
    ]

-- `addPath`; an absent name is the path.
unfoldable pub add_path :
    (String → String) → OwnerKind → String → Option String → Registry → Throws Registry
unfolding lookup insert path_collision
add_path lower kind path name r =
    let label : String = elim name [ none ↦ path | some n ↦ n ] in
    elim (lookup (lower path) r.paths) [
      | some existing ↦ err (path_collision existing kind label path)
      | none ↦
          ok (record r {
            paths = insert (lower path) (record { kind = kind; name = label }) r.paths;
          })
    ]

duplicate_key : String → String → String → Thrown
duplicate_key key resource_name place = new_error (
    append "Duplicate action key: \"" (
      append key (
        append "\" in resource \"" (
          append resource_name
            (append "\" " (append place ". Each action key must be unique within its list."))))))

unique_from : String → String → List String → List String → Throws (Unit {0})
unfolding contains duplicate_key
unique_from resource_name place [] seen = ok tt
unique_from resource_name place (key ∷ keys) seen =
    let later = unique_from resource_name place keys (key ∷ seen) in
    if contains seen key then err (duplicate_key key resource_name place) else later

-- `assertUniqueActionKeys`, of the keys of the actions.
unfoldable pub assert_unique_keys : Option (List String) → String → String → Throws (Unit {0})
unfolding unique_from
assert_unique_keys none resource_name place = ok tt
assert_unique_keys (some keys) resource_name place = unique_from resource_name place keys []

-- What `assertProductionAuth` reads: the environment, and the `auth` and `readOnly` of the
-- configuration.
pub record AuthConfig : Type 0 where
  pub is_production : Bool
  pub has_require_role : Bool
  pub allow_unauthenticated : Bool
  pub read_only : Bool

-- `assertProductionAuth`.
unfoldable pub assert_production_auth : AuthConfig → Throws (Unit {0})
assert_production_auth c =
    if not c.is_production || c.has_require_role
    then ok tt
    else if not c.allow_unauthenticated
    then err (
        new_error
          "A production admin requires auth.requireRole. For a deliberately public admin, set auth.allowUnauthenticated: true and readOnly: true.")
    else if not c.read_only
    then err (
        new_error
          "A production admin with auth.allowUnauthenticated must also set readOnly: true. Writable deployments require a real authentication adapter and auth.requireRole.")
    else ok tt

-- What `assertCanonicalAccess` reads of an action; `max` is `none` where it is absent, and holds no
-- number where it is not a whole one.
pub record Action : Type 0 where
  pub key : String
  pub has_access : Bool
  pub has_require_role : Bool
  pub max : Option (Option ℕ)

-- `Number.isInteger(max) && max >= 1 && max <= 10_000`, where there is a `max`.
abbrev pub is_valid_max : Option (Option ℕ) → Bool
is_valid_max none = true
is_valid_max (some none) = false
is_valid_max (some (some n)) = leb 1 n && leb n 10_000

double_rule : String → String → Thrown
double_rule key resource_name = new_error (
    append "action \"" (
      append key (
        append "\" on resource \""
          (append resource_name "\" cannot declare both access and requireRole."))))

invalid_max : String → String → Thrown
invalid_max key resource_name = new_error (
    append "bulk action \"" (
      append key
        (append "\" on resource \"" (append resource_name "\" requires max between 1 and 10000."))))

unfoldable pub assert_actions : List Action → String → Throws (Unit {0})
unfolding double_rule invalid_max
assert_actions [] resource_name = ok tt
assert_actions (a ∷ others) resource_name =
    let later = assert_actions others resource_name in
    if a.has_access && a.has_require_role
    then err (double_rule a.key resource_name)
    else if is_valid_max a.max
    then later
    else err (invalid_max a.key resource_name)

-- `assertCanonicalAccess`, of whether the resource has an `access` and a `requireRole`, and of its
-- actions, bulk actions and drawer actions in a row.
unfoldable pub assert_canonical_access : Bool → Bool → List Action → String → Throws (Unit {0})
unfolding assert_actions
assert_canonical_access has_access has_require_role actions resource_name =
    if has_access && has_require_role
    then err (
        new_error (
          append "resource \"" (
            append resource_name
              "\" cannot declare both access and requireRole. Move the compatibility role rule into access.")))
    else assert_actions actions resource_name
