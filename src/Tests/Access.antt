-- ===== src/Tests/Access.antt =====
-- Errors and policies at concrete inputs.
use flowpanel.Base.{
  ◌≤◌, String, true, false, not, ◌≡◌, refl, none, some, List, [], ◌∷◌, ok, ◌↔◌, All, find,
}
use flowpanel.Base.Text.{contains}
use flowpanel.Base.Dict.{lookup, keys}
use flowpanel.Base.Value.{Row, bool, str}
use flowpanel.Errors.{Thrown, js_error}
use flowpanel.Errors.Report.{report_all, calls, no_reports, report_once}
use flowpanel.Policy.{
  AccessContext, Policies, FieldWriteContext, one_role, filter_readable, assert_writable_input,
}
use flowpanel.Policy.Reading.{MayRead, filter_readable_iff}
use flowpanel.Policy.Writing.{MayWrite, assert_writable_input_iff}

abbrev twice : List Thrown
twice = js_error (some 7) "lost" ∷ js_error (some 8) "gone" ∷ js_error (some 7) "lost" ∷ []

report_once_example : calls 7 (report_all (some (λ _. true)) twice no_reports).log ≤ 1
report_once_example = report_once (some (λ _. true)) twice 7

abbrev editor : AccessContext
editor = record { session = none; role = "editor"; scope = none }

abbrev policies : Policies
policies =
    (
      "email",
      record {
        read_rule = some (one_role "admin");
        write_rule = some (one_role "editor");
        sensitive = false;
      },
    )
    ∷ ("token", record { read_rule = none; write_rule = none; sensitive = true })
    ∷ []

abbrev requested : List String
requested = "name" ∷ "token" ∷ "email" ∷ []

read_example : filter_readable requested policies editor ≡ ok ("name" ∷ [])
unfolding filter_readable lookup contains
read_example = refl

filter_readable_iff_example :
    (contains ("name" ∷ []) "email" ≡ true)
    ↔ ((contains requested "email" ≡ true) × MayRead policies editor "email")
filter_readable_iff_example =
    filter_readable_iff policies editor requested ("name" ∷ []) "email" read_example

abbrev writer : FieldWriteContext
writer = record { caller = editor; current = none; input = [] }

abbrev input : Row
input = ("email", str "a@b.c") ∷ []

assert_writable_input_iff_example :
    (assert_writable_input ("email" ∷ []) policies input writer ≡ ok input) ↔ (
      (input ≡ input)
      × All (λ k. contains ("email" ∷ []) k ≡ true) (keys input)
      × All (MayWrite policies writer) (keys input))
assert_writable_input_iff_example =
    assert_writable_input_iff ("email" ∷ []) policies writer input input

abbrev foreign_input : Row
foreign_input = ("name", str "x") ∷ ("email", bool true) ∷ []

find_foreign : find (λ f. not (contains ("email" ∷ []) f)) (keys foreign_input) ≡ some "name"
unfolding contains keys
find_foreign = refl
