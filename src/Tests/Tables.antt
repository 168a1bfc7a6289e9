-- ===== src/Tests/Tables.antt =====
-- Selections and configurations at concrete inputs.
use flowpanel.Base.{true, false, not, ◌≡◌, refl, ◌&&◌, ◌||◌, [], ◌∷◌, ok, All, some, if◌then◌else◌}
use flowpanel.Base.Text.{contains}
use flowpanel.Selection.{toggle_all, all_on_page}
use flowpanel.Selection.Toggles.{toggle_all-contains}
use flowpanel.Config.{Action}
use flowpanel.Config.{Registry, new_registry, is_safe_segment, resource, page, add}
use flowpanel.Config.Names.{AreDifferent, Routes, keys_of, add_routes, add_routes-AreDifferent}

toggle_all-contains_example : contains (toggle_all ("a" ∷ []) ("a" ∷ "b" ∷ [])) "b" ≡ (
    if all_on_page ("a" ∷ []) ("a" ∷ "b" ∷ [])
    then contains ("a" ∷ []) "b" && not (contains ("a" ∷ "b" ∷ []) "b")
    else contains ("a" ∷ []) "b" || contains ("a" ∷ "b" ∷ []) "b")
toggle_all-contains_example = toggle_all-contains ("a" ∷ []) ("a" ∷ "b" ∷ []) "b"

one_out : all_on_page ("c" ∷ "a" ∷ []) ("a" ∷ "b" ∷ []) ≡ false
unfolding all_on_page
one_out = refl

abbrev routes : Routes
routes = (resource, "users") ∷ (page, "reports") ∷ []

abbrev registered : Registry
registered = record {
  owners =
      ("users", record { kind = resource; name = "users" })
      ∷ ("reports", record { kind = page; name = "reports" })
      ∷ [];
  paths = [];
}

routes-registered : add_routes (λ s. s) routes new_registry ≡ ok registered
unfolding add_routes add
routes-registered = refl

add_routes-AreDifferent_example :
    All (λ route. is_safe_segment route.1 ≡ true) routes × AreDifferent (keys_of (λ s. s) routes)
add_routes-AreDifferent_example =
    add_routes-AreDifferent (λ s. s) routes registered routes-registered

abbrev bulk : Action
bulk = record { key = "ban"; has_access = true; has_require_role = false; max = some (some 50) }
