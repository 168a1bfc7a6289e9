-- ===== src/Routing.antt =====
-- packages/next/src/handlers.ts: which handler serves a request of the catch-all API route, from
-- its method and the segments of its path. What the handlers do is Guards, Bulk and others.
-- A pattern segment that begins with ":" is `param`, without the colon.
pub mod Matching
pub mod Reaching
use flowpanel.Base.{
  String, Bool, true, false, not, ◌==◌, ◌&&◌, ◌||◌, Option, none, some, List, [], ◌∷◌,
  if◌then◌else◌,
}
use flowpanel.Base.Dict.{insert}

pub data Segment : Type 0 where
  lit param : String → Segment

abbrev pub Params : Type 0
Params = List (String × String)

-- `null`, `MALFORMED`, or the captured segments.
pub data Match : Type 0 where
  no_match malformed : Match
  captured : Params → Match

-- The loop of `matchRoute`, with its two variables.
unfoldable pub match_from : List Segment → List String → Params → Bool → Match
match_from [] [] params bad = if bad then malformed else captured params
match_from [] (_ ∷ _) params bad = no_match
match_from (_ ∷ _) [] params bad = no_match
match_from (lit text ∷ segments) (value ∷ route) params bad =
    let rest = match_from segments route params bad in if text == value then rest else no_match
match_from (param name ∷ segments) (value ∷ route) params bad =
    match_from segments route (if value == "" then params else insert name value params)
      (bad || value == "")

unfoldable pub match_route : List Segment → List String → Match
unfolding match_from
match_route segments route = match_from segments route [] false

-- The handlers that the tables name.
pub data Handler : Type 0 where
  drawer reference_search drawer_action dashboard_action row_action bulk_action : Handler
  import_rows resource_create inline_update resource_update restore : Handler

pub record Pattern : Type 0 where
  pub segments : List Segment
  pub handler : Handler

-- How a request is served: by a handler of a table, by one of the five resource operations of the
-- JSON API, or by a refusal.
pub data Served : Type 0 where
  handled : Handler → Params → Served
  listing create : String → Served
  item update delete : String → String → Served
  bad_request not_found method_not_allowed : Served

-- `dispatch`; `none` where no pattern describes the route.
unfoldable pub dispatch : List Pattern → List String → Option Served
unfolding match_route
dispatch [] route = none
dispatch (p ∷ ps) route =
    let rest = dispatch ps route in
    elim (match_route p.segments route) [
      | no_match ↦ rest
      | malformed ↦ some bad_request
      | captured params ↦ some (handled p.handler params)
    ]

abbrev pub get_patterns : List Pattern
get_patterns =
    record { segments = lit "drawer" ∷ param "resource" ∷ param "id" ∷ []; handler = drawer }
    ∷ record {
      segments = param "resource" ∷ lit "reference" ∷ param "field" ∷ [];
      handler = reference_search;
    }
    ∷ []

abbrev pub post_patterns : List Pattern
post_patterns =
    record {
      segments = lit "drawer" ∷ param "resource" ∷ param "id" ∷ lit "actions" ∷ param "action" ∷ [];
      handler = drawer_action;
    }
    ∷ record {
      segments = lit "dashboards" ∷ param "dashboard" ∷ lit "actions" ∷ param "action" ∷ [];
      handler = dashboard_action;
    }
    ∷ record {
      segments = param "resource" ∷ param "id" ∷ lit "actions" ∷ param "action" ∷ [];
      handler = row_action;
    }
    ∷ record {
      segments = param "resource" ∷ lit "bulk-actions" ∷ param "action" ∷ [];
      handler = bulk_action;
    }
    ∷ record { segments = param "resource" ∷ lit "import" ∷ []; handler = import_rows }
    ∷ record { segments = param "resource" ∷ lit "create" ∷ []; handler = resource_create }
    ∷ record {
      segments = param "resource" ∷ param "id" ∷ lit "update" ∷ [];
      handler = inline_update;
    }
    ∷ record {
      segments = param "resource" ∷ param "id" ∷ lit "edit" ∷ [];
      handler = resource_update;
    }
    ∷ record { segments = param "resource" ∷ param "id" ∷ lit "restore" ∷ []; handler = restore }
    ∷ []

-- What `GET` falls back on: the list of a registered resource, or one row.
abbrev get_fallback : (String → Bool) → List String → Served
get_fallback registered (r ∷ []) = if not (r == "") && registered r then listing r else not_found
get_fallback registered (r ∷ id ∷ []) =
    if not (r == "") && not (id == "") then item r id else not_found
get_fallback registered _ = not_found

abbrev post_fallback : (String → Bool) → List String → Served
post_fallback registered (r ∷ []) = if not (r == "") && registered r then create r else not_found
post_fallback registered _ = not_found

abbrev served_or : Option Served → Served → Served
served_or none s = s
served_or (some s) t = s

-- `GET` and `POST`. `registered` is `config.resourcesByName.has`.
unfoldable pub get : (String → Bool) → List String → Served
unfolding dispatch
get registered route = served_or (dispatch get_patterns route) (get_fallback registered route)

unfoldable pub post : (String → Bool) → List String → Served
unfolding dispatch
post registered route = served_or (dispatch post_patterns route) (post_fallback registered route)

-- `PUT` and `PATCH`, and `DELETE`.
unfoldable pub put : List String → Served
put (r ∷ id ∷ []) = if not (r == "") && not (id == "") then update r id else method_not_allowed
put _ = method_not_allowed

unfoldable pub delete_route : List String → Served
delete_route (r ∷ id ∷ []) =
    if not (r == "") && not (id == "") then delete r id else method_not_allowed
delete_route _ = method_not_allowed
