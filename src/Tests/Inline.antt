-- ===== src/Tests/Inline.antt =====
-- An inline update at a concrete request.
use flowpanel.Base.{
  String, Bool, true, false, ◌≡◌, refl, ◌⊎◌, Option, some, List, [], ◌∷◌, Result, ok, or_else,
}
use flowpanel.Base.Value.{Value, str, null, Row}
use flowpanel.Guards.{RequestContext, World, guard_same_origin, guards}
use flowpanel.Policy.{
  check_require_role, assert_resource_scope, resolve_operation_access, authorize_operation,
}
use flowpanel.Guards.Admission.{Admitted}
use flowpanel.RequestBody.{BodyError}
use flowpanel.Writes.{Schema, Entity, State}
use flowpanel.Restore.{Restorer, IsRestored, restore_route, restore_route-Restored}
use flowpanel.Inline.{inline_spec, inline_update_route}
use flowpanel.Inline.Guarded.{Reaches, inline_update_route-Reaches}
use flowpanel.Tests.Requests.{platform, own_request}
use flowpanel.Tests.RowActions.{same_text, world}
use flowpanel.Tests.Writes.{admin, users, start}

abbrev edit : Result BodyError Row
edit = ok (("field", str "name") ∷ ("value", str "Grace") ∷ [])

abbrev editable : List (Option String × Bool)
editable = (some "name", true) ∷ []

abbrev whole : Schema → String → Option Schema
whole schema field = some schema

inline_update_route-Reaches_example :
    ((inline_update_route same_text platform
        (admin false)
        users
        editable
        whole
        own_request
        "r"
        "1"
        edit
        world).1.app
      ≡ start)
    ⊎ ((c : RequestContext) × (field : String) × (value : Value) × (existing : Row)
        × (users.update_disabled ≡ false)
        × Admitted platform (admin false).guard own_request "r" (inline_spec users) world c
        × Reaches same_text
            (admin false)
            users
            editable
            whole
            "1"
            c
            edit
            start.db
            field
            value
            existing)
inline_update_route-Reaches_example =
    inline_update_route-Reaches same_text platform (admin false) users editable whole own_request
      "r" "1" edit world

-- Users that are deleted softly, and an adapter that brings back the row it is asked for.
abbrev soft_users : Entity
soft_users = record users { soft_delete = some "deleted_at" }

abbrev puts_back : Restorer (List Row)
puts_back m db =
    (ok tt, (("id", str (or_else m.id "")) ∷ ((or_else m.soft_delete "", null) ∷ [])) ∷ [])

abbrev restored_world : World (State (List Row))
restored_world =
    (restore_route same_text platform (admin false) soft_users (some puts_back) own_request "r" "1"
      world).1

brought_back : restored_world.app.db ≡ (("id", str "1") ∷ (("deleted_at", null) ∷ [])) ∷ []
unfolding restore_route guard_same_origin guards check_require_role assert_resource_scope
    resolve_operation_access authorize_operation
brought_back = refl

restore_route-Restored_example :
    (restored_world.app ≡ world.app)
    ⊎ IsRestored same_text platform
        (admin false)
        soft_users
        (some puts_back)
        own_request
        "r"
        "1"
        world
        restored_world.app.db
restore_route-Restored_example =
    restore_route-Restored same_text platform (admin false) soft_users (some puts_back) own_request
      "r" "1" world
