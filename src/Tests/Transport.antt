-- ===== src/Tests/Transport.antt =====
-- Limits, realtime and routing at concrete inputs.
use flowpanel.Base.{
  suc, ◌-◌, min, String, true, false, ◌≡◌, refl, Option, none, some, List, [], ◌∷◌, ok, arith,
}
use flowpanel.Base.Dict.{lookup, insert}
use flowpanel.Base.Value.{Value, undefined}
use flowpanel.RateLimit.{Options}
use flowpanel.RateLimit.Memory.{Requests, allowed, made, allowed_window}
use flowpanel.Realtime.{Json}
use flowpanel.Realtime.Memory.{Publisher, undo, receivers, unsubscribe}
use flowpanel.Realtime.Memory.Views.{Use, subscribes, unsubscribes, stale_unsubscribe}
use flowpanel.Routing.{Segment, lit, param, match_route}
use flowpanel.Routing.Matching.{Describes, match_route-Describes}
use flowpanel.Routing.Reaching.{of_row}

abbrev two_a_second : Options
two_a_second = record { limit = 2; window_ms = 1000 }

abbrev requests : Requests
requests = (6, "a") ∷ (7, "b") ∷ (8, "a") ∷ (9, "a") ∷ []

allowed_window_example :
    allowed two_a_second "a" ((5, "a") ∷ requests) [] ≡ suc (min (made "a" requests) (2 - 1))
unfolding lookup
allowed_window_example =
    allowed_window two_a_second "a" 5 requests [] tt
      (omega arith, (omega arith, (omega arith, (omega arith, tt))))

-- Texts that keep the value that they were made of.
abbrev pub plain_json : Json
plain_json = record {
  Text = Option Value;
  empty = none;
  is_empty = λ t. elim t [ none ↦ true | some _ ↦ false ];
  stringify = λ v. ok (some v);
  parse = λ t. t;
  of_text = λ _. undefined;
}

abbrev stale_uses : List Use
stale_uses =
    subscribes "a" 1 ∷ subscribes "b" 9 ∷ unsubscribes (undo "a" 0 1) ∷ subscribes "a" 2 ∷ []

-- Handler 1 has left, handler 2 has come, and handler 1 leaves again.
abbrev renewed : Publisher
renewed = record {
  sets = [] ∷ (9 ∷ []) ∷ (2 ∷ []) ∷ [];
  subs = ("b", 1) ∷ ("a", 2) ∷ [];
  closed = false;
}

renewed-receivers : receivers renewed "a" ≡ 2 ∷ []
unfolding receivers lookup
renewed-receivers = refl

stale_unsubscribe_example : receivers (unsubscribe (undo "a" 0 1) renewed) "a" ≡ []
stale_unsubscribe_example = stale_unsubscribe renewed "a" 0 1 refl

abbrev edit_pattern : List Segment
edit_pattern = param "resource" ∷ param "id" ∷ lit "edit" ∷ []

abbrev edit_route : List String
edit_route = "users" ∷ "42" ∷ "edit" ∷ []

match_route-Describes_example : Describes edit_pattern (of_row "users" "42") edit_route
unfolding match_route insert
match_route-Describes_example =
    match_route-Describes edit_pattern edit_route (of_row "users" "42")
      (((λ e. cc e), ((λ e. cc e), tt)), (((λ e. cc e), tt), tt)) refl
