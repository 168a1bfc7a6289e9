-- ===== src/Tests/Changes.antt =====
-- A plan of file changes at concrete files.
use flowpanel.Base.{false, ◌≡◌, ◌⊎◌, refl, none, some, List, [], ◌∷◌, ok, eqb, if◌then◌else◌}
use flowpanel.Errors.{new_error}
use flowpanel.Changes.{
  Files, Intent, Operation, create, modify, Paths, Faults, create_plan, apply_plan,
}
use flowpanel.Changes.Atomic.{Complete, Untouched, apply_plan-create_plan}

abbrev plain_paths : Paths
plain_paths = record {
  normalize = λ s. s;
  is_absolute = λ _. false;
  leaves = λ _. false;
  to_posix = λ s. s;
}

abbrev project : Files
project = ("a.ts", "old") ∷ []

abbrev intents : List Intent
intents =
    record { path = "b.ts"; content = "new"; overwrite = false; expected_content = none }
    ∷ record { path = "a.ts"; content = "newer"; overwrite = false; expected_content = some "old" }
    ∷ []

abbrev plan : List Operation
plan =
    record { kind = create; path = "b.ts"; content = "new"; previous_content = none }
    ∷ record { kind = modify; path = "a.ts"; content = "newer"; previous_content = some "old" }
    ∷ []

-- The second write fails.
abbrev second_fails : Faults
second_fails = record {
  at_change = λ i. if eqb i 1 then some (new_error "disk full") else none;
  at_restore = λ _. none;
}

planned : create_plan plain_paths (λ _. none) project intents ≡ ok plan
unfolding create_plan
planned = refl

apply_plan-create_plan_example :
    Complete second_fails project plan (apply_plan second_fails plan project)
    ⊎ Untouched second_fails project (apply_plan second_fails plan project)
apply_plan-create_plan_example =
    apply_plan-create_plan plain_paths (λ _. none) second_fails project intents plan planned
      (λ _. refl)
